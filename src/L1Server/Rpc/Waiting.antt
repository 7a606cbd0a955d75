-- ===== src/L1Server/Rpc/Waiting.antt =====
-- When the waiting loop of make_rpc_servers() ends.
use ch_frb_l.Base.{
  ℕ, ◌<◌, ◌≡◌, ◌↔◌, refl, sym, ap, ◌∙◌, Bool, true, false, ◌||◌, List, [], ◌∷◌, ◌++◌, Option, none,
  some, length-replicate, arith, Bool-cases, inl, inr, length, nat_beq, replicate,
}
use ch_frb_l.L1Server.{L1Server}
use ch_frb_l.L1Server.Cores.{nbeams_of}
use ch_frb_l.L1Server.Rpc.Pointers.{
  complete, is_set-set, all_below_eq, gotn-complete, set-complete, length-set-some, all_below,
  is_set, complete_eq, is_set-replicate,
}
use ch_frb_l.L1Server.Rpc.{Announcement, set_bonsai, announce, all_created, wait, concat}

module _ {D Bonsai Pipeline : Type 0} where
  announce-append :
      (calls more : List (Announcement Bonsai Pipeline)) (s : L1Server D Bonsai Pipeline)
      → announce (calls ++ more) s ≡ announce more (announce calls s)
  unfolding announce
  announce-append [] more s = refl
  announce-append (a ∷ calls) more s = announce-append calls more (set_bonsai a s)

  -- Calls of set_bonsai() keep what is set, the lengths and the configuration.
  announce_keeps :
      (calls : List (Announcement Bonsai Pipeline)) (s : L1Server D Bonsai Pipeline)
      → (length (announce calls s).bonsai_dedispersers ≡ length s.bonsai_dedispersers)
        × ((announce calls s).config ≡ s.config)
  unfolding announce set_bonsai
  announce_keeps [] s = (refl, refl)
  announce_keeps (a ∷ calls) s =
      let (l, c) = announce_keeps calls (set_bonsai a s) in
      (l ∙ length-set-some s.bonsai_dedispersers a.beam a.bonsai, c)

  announce-complete :
      (calls : List (Announcement Bonsai Pipeline)) (s : L1Server D Bonsai Pipeline)
      → complete s.bonsai_dedispersers ≡ true
      → complete (announce calls s).bonsai_dedispersers ≡ true
  unfolding announce set_bonsai
  announce-complete [] s h = h
  announce-complete (a ∷ calls) s h =
      announce-complete calls (set_bonsai a s)
        (set-complete s.bonsai_dedispersers a.beam a.bonsai h)

  -- The vector has the length of the beams.
  abbrev pub IsSized : L1Server D Bonsai Pipeline → Type 0
  IsSized s = length s.bonsai_dedispersers ≡ nbeams_of s.config

  all_created-complete :
      (s : L1Server D Bonsai Pipeline) → IsSized s → all_created s ≡ complete s.bonsai_dedispersers
  unfolding all_created
  all_created-complete s h = rw (sym h) (gotn-complete s.bonsai_dedispersers)

  announce-IsSized :
      (calls : List (Announcement Bonsai Pipeline)) (s : L1Server D Bonsai Pipeline)
      → IsSized s
      → IsSized (announce calls s)
  announce-IsSized calls s h = let (l, c) = announce_keeps calls s in l ∙ h ∙ ap nbeams_of (sym c)

  -- One poll: the loop ends at once if all are created, and else goes on.
  pub wait_hit :
      (calls : List (Announcement Bonsai Pipeline))
      (polls : List (List (Announcement Bonsai Pipeline))) (s : L1Server D Bonsai Pipeline)
      → all_created (announce calls s) ≡ true
      → wait (calls ∷ polls) s ≡ some (announce calls s)
  unfolding wait
  wait_hit calls polls s e = rw (wait, e) refl

  pub wait_miss :
      (calls : List (Announcement Bonsai Pipeline))
      (polls : List (List (Announcement Bonsai Pipeline))) (s : L1Server D Bonsai Pipeline)
      → all_created (announce calls s) ≡ false
      → wait (calls ∷ polls) s ≡ wait polls (announce calls s)
  unfolding wait
  wait_miss calls polls s e = rw (wait, e) refl

  -- What the beams have after all the calls.
  abbrev final :
      List (List (Announcement Bonsai Pipeline)) → L1Server D Bonsai Pipeline → List (Option Bonsai)
  final polls s = (announce (concat polls) s).bonsai_dedispersers

  final-cons :
      (calls : List (Announcement Bonsai Pipeline))
      (polls : List (List (Announcement Bonsai Pipeline))) (s : L1Server D Bonsai Pipeline)
      → final (calls ∷ polls) s ≡ final polls (announce calls s)
  unfolding concat
  final-cons calls polls s =
      ap (λ t. t.bonsai_dedispersers) (announce-append calls (concat polls) s)

  created :
      (calls : List (Announcement Bonsai Pipeline)) (s : L1Server D Bonsai Pipeline) (b : Bool)
      → IsSized s
      → all_created (announce calls s) ≡ b
      → complete (announce calls s).bonsai_dedispersers ≡ b
  created calls s b h e =
      sym (all_created-complete (announce calls s) (announce-IsSized calls s h)) ∙ e

  wait_last : (s : L1Server D Bonsai Pipeline) → wait [] s ≡ none
  unfolding wait
  wait_last s = refl

  final_last : (s : L1Server D Bonsai Pipeline) → final [] s ≡ s.bonsai_dedispersers
  unfolding concat announce
  final_last s = refl

  at_once :
      (calls : List (Announcement Bonsai Pipeline))
      (polls : List (List (Announcement Bonsai Pipeline))) (s : L1Server D Bonsai Pipeline)
      → IsSized s
      → all_created (announce calls s) ≡ true
      → ((t : L1Server D Bonsai Pipeline) × (wait (calls ∷ polls) s ≡ some t))
        ↔ (complete (final (calls ∷ polls) s) ≡ true)
  at_once calls polls s h e = (
    λ _.
        ap complete (final-cons calls polls s)
        ∙ announce-complete (concat polls) (announce calls s) (created calls s true h e),
    λ _. (announce calls s, wait_hit calls polls s e),
  )

  wait-complete :
      (calls : List (Announcement Bonsai Pipeline))
      (polls : List (List (Announcement Bonsai Pipeline))) (s : L1Server D Bonsai Pipeline)
      → IsSized s
      → ((t : L1Server D Bonsai Pipeline) × (wait (calls ∷ polls) s ≡ some t))
        ↔ (complete (final (calls ∷ polls) s) ≡ true)
  wait-complete calls [] s h = elim (Bool-cases (all_created (announce calls s))) [
    | inl e ↦ at_once calls [] s h e
    | inr e ↦
        let stuck = wait_miss calls [] s e ∙ wait_last (announce calls s) in
        let missing =
          ap complete (final-cons calls [] s ∙ final_last (announce calls s))
          ∙ created calls s false h e in
        ((λ (t, f). cc (stuck, f)), (λ f. cc (missing, f)))
  ]
  wait-complete calls (next ∷ polls) s h = elim (Bool-cases (all_created (announce calls s))) [
    | inl e ↦ at_once calls (next ∷ polls) s h e
    | inr e ↦
        let go = wait-complete next polls (announce calls s) (announce-IsSized calls s h) in
        let same = ap complete (final-cons calls (next ∷ polls) s) in
        (
          λ (t, f). same ∙ go.0 (t, sym (wait_miss calls (next ∷ polls) s e) ∙ f),
          λ f. let (t, g) = go.1 (sym same ∙ f) in (t, wait_miss calls (next ∷ polls) s e ∙ g),
        )
  ]

-- The beam has called set_bonsai().
abbrev pub announced : {Bonsai Pipeline : Type 0} → List (Announcement Bonsai Pipeline) → ℕ → Bool
announced [] i = false
announced (a ∷ calls) i = nat_beq a.beam i || announced calls i

module _ {D Bonsai Pipeline : Type 0} where
  is_set-announce :
      (calls : List (Announcement Bonsai Pipeline)) (s : L1Server D Bonsai Pipeline) (i : ℕ)
      → i < length s.bonsai_dedispersers
      → is_set (announce calls s).bonsai_dedispersers i
        ≡ (is_set s.bonsai_dedispersers i || announced calls i)
  unfolding announce set_bonsai
  is_set-announce [] s i h = ground arith
  is_set-announce (a ∷ calls) s i h =
      let size = length-set-some s.bonsai_dedispersers a.beam a.bonsai in
      let rest = is_set-announce calls (set_bonsai a s) i (omega (arith, size)) in
      let first = is_set-set s.bonsai_dedispersers i a.beam a.bonsai h in
      rest ∙ rw first (ground arith)

  -- From a state in which no dedisperser has been created: the waiting loop of `wait` ends, at one of the polls, exactly if every beam
  -- has called set_bonsai() before the last of them. There is at least one poll.
  pub wait_iff :
      (calls : List (Announcement Bonsai Pipeline))
      (polls : List (List (Announcement Bonsai Pipeline))) (s : L1Server D Bonsai Pipeline)
      → s.bonsai_dedispersers ≡ replicate (nbeams_of s.config) none
      → ((t : L1Server D Bonsai Pipeline) × (wait (calls ∷ polls) s ≡ some t))
        ↔ (all_below (nbeams_of s.config) (announced (concat (calls ∷ polls))) ≡ true)
  wait_iff calls polls s fresh =
      let size : length s.bonsai_dedispersers ≡ nbeams_of s.config =
        ap length fresh ∙ length-replicate (nbeams_of s.config) none in
      let all = concat (calls ∷ polls) in
      let (kept, c) = announce_keeps all s in
      let same : complete (final (calls ∷ polls) s)
          ≡ all_below (nbeams_of s.config) (announced all) =
        complete_eq (final (calls ∷ polls) s)
        ∙ ap (λ n. all_below n (is_set (final (calls ∷ polls) s))) (kept ∙ size)
        ∙ all_below_eq (nbeams_of s.config) (is_set (final (calls ∷ polls) s)) (announced all)
            (λ i p.
              is_set-announce all s i (omega (arith, size))
              ∙ rw (fresh, is_set-replicate Bonsai (nbeams_of s.config) i) refl) in
      let loop = wait-complete calls polls s size in
      ((λ h. sym same ∙ loop.0 h), (λ h. loop.1 (same ∙ h)))
