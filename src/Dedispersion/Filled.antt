-- ===== src/Dedispersion/Filled.antt =====
-- The loop over the mask counters, and the counter that fills the masks of the assembled chunks.
use ch_frb_l.Base.{
  ℕ, suc, ◌+◌, ◌<◌, ◌≡◌, refl, sym, ap, subst, ◌∙◌, true, false, List, [], ◌∷◌, ◌++◌, Option, none,
  some, ok, Text, length, length-append, replicate, ℤ, is_pos, arith, Result-cases, inl, inr,
  lookup, lookup-insert, insert, int_eq, text_eq, pair_eq,
}
use ch_frb_l.MaskStats.{MaskStats, put}
use ch_frb_l.Dedispersion.{
  MaskCounter, Stage, Found, RuntimeAttrs, MaskSettings, attrs_of, set_up, visit,
  init_mask_counters,
}
use ch_frb_l.Dedispersion.Masks.{IsLast, visit_last}

abbrev pub streams_of : List RuntimeAttrs → List (Option ℕ)
streams_of [] = []
streams_of (a ∷ attrs) = a.chime_stream ∷ streams_of attrs

chime_stream_last :
    (c : MaskSettings) (n i : ℕ)
    → is_pos c.nrfifreq ≡ true
    → i ≡ n
    → (attrs_of c (suc n) i).chime_stream ≡ some c.sp
unfolding attrs_of
chime_stream_last c n i asked e = ground (arith, asked)

chime_stream_other :
    (c : MaskSettings) (n i : ℕ) → i < n → (attrs_of c (suc n) i).chime_stream ≡ none
unfolding attrs_of
chime_stream_other c n i h = ground arith

module _ {Ring : Type 0} where
  -- What the last of the counters gets, where the masks are asked for.
  pub record Fills (c : MaskSettings) (n i : ℕ) (counter : MaskCounter Ring)
      (attrs : List RuntimeAttrs) (ms_map : MaskStats Ring) : Type 0 where
    pub streams : streams_of attrs ≡ replicate i none ++ some c.sp ∷ []
    pub mapped :
        lookup (c.beam_id, counter.place) ms_map.entries ≡ counter.ringbuf (attrs_of c (suc n) n)

  put_inv :
      (beam_id : ℤ) (stage : Text) (ringbuf : Option Ring) (m after : MaskStats Ring)
      → put beam_id stage ringbuf m ≡ ok after
      → lookup (beam_id, stage) after.entries ≡ ringbuf
  unfolding put
  put_inv beam_id stage none m after h = absurd (ground arith)
  put_inv beam_id stage (some ring) m after h =
      let e : insert (beam_id, stage) ring m.entries ≡ after.entries = ground (arith, h) in
      rw (sym e) (
        lookup-insert (beam_id, stage) (beam_id, stage) ring m.entries
        ∙ rw (((pair_eq {A = ℤ} {B = Text}).beq_iff (beam_id, stage) (beam_id, stage)).1 refl) refl)

  -- A round of the loop over the counters.
  record Round (c : MaskSettings) (n i : ℕ) (counter : MaskCounter Ring)
      (counters : List (MaskCounter Ring)) (ms_map after : MaskStats Ring)
      (attrs : List RuntimeAttrs) : Type 0 where
    with_ring : MaskStats Ring
    rest : List RuntimeAttrs
    puts : put c.beam_id counter.place (counter.ringbuf (attrs_of c n i)) ms_map ≡ ok with_ring
    goes_on : set_up c n (suc i) counters with_ring ≡ ok (rest, after)
    sets : attrs ≡ attrs_of c n i ∷ rest

  set_up_round :
      (c : MaskSettings) (n i : ℕ) (counter : MaskCounter Ring) (counters : List (MaskCounter Ring))
      (ms_map after : MaskStats Ring) (attrs : List RuntimeAttrs)
      → set_up c n i (counter ∷ counters) ms_map ≡ ok (attrs, after)
      → Round c n i counter counters ms_map after attrs
  unfolding set_up
  set_up_round c n i counter counters ms_map after attrs h =
      elim (Result-cases (put c.beam_id counter.place (counter.ringbuf (attrs_of c n i)) ms_map)) [
        | inr (x, f) ↦ absurd (ground (arith, f))
        | inl (m, f) ↦ elim (Result-cases (set_up c n (suc i) counters m)) [
          | inr (x, g) ↦ absurd (ground (arith, f, g))
          | inl ((rest, last), g) ↦
              let same : (attrs_of c n i ∷ rest ≡ attrs) × (last ≡ after) = ground (arith, f, g) in
              record {
                with_ring = m;
                rest = rest;
                puts = f;
                goes_on = g ∙ ap (λ x. ok (rest, x)) same.1;
                sets = sym same.0;
              }
        ]
      ]

  set_up_nil :
      (c : MaskSettings) (n i : ℕ) (ms_map after : MaskStats Ring) (attrs : List RuntimeAttrs)
      → set_up {Ring = Ring} c n i [] ms_map ≡ ok (attrs, after)
      → (attrs ≡ []) × (ms_map ≡ after)
  unfolding set_up
  set_up_nil c n i ms_map after attrs h = ground arith

  set_up_last :
      (c : MaskSettings) (n i : ℕ) (earlier : List (MaskCounter Ring)) (counter : MaskCounter Ring)
      (ms_map after : MaskStats Ring) (attrs : List RuntimeAttrs)
      → is_pos c.nrfifreq ≡ true
      → i + length earlier ≡ n
      → set_up c (suc n) i (earlier ++ counter ∷ []) ms_map ≡ ok (attrs, after)
      → Fills c n (length earlier) counter attrs after
  set_up_last c n i [] counter ms_map after attrs asked e h =
      let r = set_up_round c (suc n) i counter [] ms_map after attrs h in
      let (no_more, same) = set_up_nil c (suc n) (suc i) r.with_ring after r.rest r.goes_on in
      let i_last : i ≡ n = omega (arith, e) in
      record {
        streams = rw (r.sets, no_more, chime_stream_last c n i asked i_last) refl;
        mapped =
            subst
              (λ k.
                lookup (c.beam_id, counter.place) after.entries
                ≡ counter.ringbuf (attrs_of c (suc n) k))
              i_last
              (rw (sym same) (
                put_inv c.beam_id counter.place (counter.ringbuf (attrs_of c (suc n) i)) ms_map
                  r.with_ring r.puts));
      }
  set_up_last c n i (first ∷ earlier) counter ms_map after attrs asked e h =
      let r = set_up_round c (suc n) i first (earlier ++ counter ∷ []) ms_map after attrs h in
      let later =
        set_up_last c n (suc i) earlier counter r.with_ring after r.rest asked (omega (arith, e))
          r.goes_on in
      record {
        streams =
            rw (r.sets, chime_stream_other c n i (omega (arith, e))) (ap (◌∷◌ none) later.streams);
        mapped = later.mapped;
      }

  -- The visit of the whole chain.
  abbrev visited : List (Stage Ring) → Found Ring
  visited stages =
      visit stages (record { mask_counters = []; clippers_after_mask_counters = false })

  init_inv :
      (c : MaskSettings) (stages : List (Stage Ring)) (ms_map after : MaskStats Ring)
      (attrs : List RuntimeAttrs)
      → is_pos c.nrfifreq ≡ true
      → init_mask_counters c stages ms_map ≡ ok (attrs, after)
      → ((visited stages).clippers_after_mask_counters ≡ false)
        × (0 < length (visited stages).mask_counters)
        × (set_up c (length (visited stages).mask_counters) 0 (visited stages).mask_counters ms_map
            ≡ ok (attrs, after))
  unfolding init_mask_counters
  init_inv c stages ms_map after attrs asked h =
      (ground (arith, asked), ground (arith, asked), ground (arith, asked))

  -- Where masks are asked for and the counters are set up, the last counter of the chain has no clipper
  -- after it; it alone is given the input stream, whose chunks it fills, and its ring buffer is the one that the map then
  -- has for the beam and its place.
  pub init_mask_counters-Fills :
      (c : MaskSettings) (stages : List (Stage Ring)) (ms_map after : MaskStats Ring)
      (attrs : List RuntimeAttrs)
      → is_pos c.nrfifreq ≡ true
      → init_mask_counters c stages ms_map ≡ ok (attrs, after)
      → (counter : MaskCounter Ring) × IsLast stages counter
        × (n : ℕ) × Fills c n n counter attrs after
  init_mask_counters-Fills c stages ms_map after attrs asked h =
      let start : Found Ring = record {
        mask_counters = [];
        clippers_after_mask_counters = false;
      } in
      let (clear, some_counter, done) = init_inv c stages ms_map after attrs asked h in
      elim (visit_last stages start clear) [
        | inl (same, _, _) ↦ absurd (omega (arith, some_counter, ap length same))
        | inr last ↦
            let size = length last.earlier in
            let all : length (visit stages start).mask_counters ≡ suc size =
              ap length last.finds ∙ length-append last.earlier (last.counter ∷ []) ∙ omega arith in
            (
              last.counter,
              last.is_last,
              size,
              set_up_last c size 0 last.earlier last.counter ms_map after attrs asked (omega arith)
                  (subst
                    (λ n.
                      set_up c n 0 (last.earlier ++ last.counter ∷ []) ms_map ≡ ok (attrs, after))
                    all
                    (subst
                      (λ l.
                        set_up c (length (visit stages start).mask_counters) 0 l ms_map
                        ≡ ok (attrs, after))
                      last.finds done)),
            )
      ]
