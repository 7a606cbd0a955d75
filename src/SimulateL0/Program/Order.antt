-- ===== src/SimulateL0/Program/Order.antt =====
-- The streams end after everything has been sent, whatever the order in which the threads run.
use ch_frb_l.Base.{
  ℕ, zero, suc, ◌+◌, ◌-◌, ◌<◌, ◌≡◌, refl, sym, ap, ◌∙◌, List, [], ◌∷◌, ◌++◌, map, append_assoc,
  append-nil, some, Bool-cases, ltb, inl, inr, ◌⊎◌, ◌≤◌, subst, List-cases, length, length-set,
  length-map, get_elem?, get_or, set, arith,
}
use ch_frb_l.SimulateL0.Program.{Running, spawned, Step, send, join, end_stream, Reach, here, next}

-- What each thread has sent, followed by what it has still to send.
abbrev together : List (List ℕ) → List (List ℕ) → List (List ℕ)
together [] pending = []
together (s ∷ sent) [] = []
together (s ∷ sent) (p ∷ pending) = (s ++ p) ∷ together sent pending

together-send :
    (sent pending : List (List ℕ)) (i x : ℕ) (rest : List ℕ)
    → length sent ≡ length pending
    → get_elem? pending i ≡ some (x ∷ rest)
    → together (set sent i (get_or sent i [] ++ x ∷ [])) (set pending i rest)
      ≡ together sent pending
together-send [] pending i x rest e h = refl
together-send (s ∷ sent) [] i x rest e h = absurd (ground arith)
together-send (s ∷ sent) (p ∷ pending) zero x rest e h =
    let p_is : p ≡ x ∷ rest = ground (arith, h) in rw (p_is, append_assoc s (x ∷ []) rest) refl
together-send (s ∷ sent) (p ∷ pending) (suc i) x rest e h =
    ap (◌∷◌ (s ++ p)) (together-send sent pending i x rest (omega (arith, e)) h)

-- A thread that has nothing left is not the one that sends.
set_keeps :
    (pending : List (List ℕ)) (i j x : ℕ) (rest : List ℕ)
    → get_elem? pending i ≡ some (x ∷ rest)
    → get_elem? pending j ≡ some []
    → get_elem? (set pending i rest) j ≡ some []
set_keeps [] i j x rest h e = e
set_keeps (p ∷ pending) zero zero x rest h e = absurd (ground (arith, h, e))
set_keeps (p ∷ pending) zero (suc j) x rest h e = e
set_keeps (p ∷ pending) (suc i) zero x rest h e = e
set_keeps (p ∷ pending) (suc i) (suc j) x rest h e = set_keeps pending i j x rest h e

together_done :
    (sent pending : List (List ℕ))
    → length sent ≡ length pending
    → ((i : ℕ) → i < length pending → get_elem? pending i ≡ some [])
    → together sent pending ≡ sent
together_done [] pending e h = refl
together_done (s ∷ sent) [] e h = absurd (omega (arith, e))
together_done (s ∷ sent) (p ∷ pending) e h =
    let p_is : p ≡ [] = ground (arith, h 0 (omega arith)) in
    let rest = together_done sent pending (omega (arith, e)) (λ i b. h (suc i) (omega arith)) in
    rw (p_is, append-nil s, rest) refl

together_start : (sends : List (List ℕ)) → together (map (λ _. []) sends) sends ≡ sends
together_start [] = refl
together_start (s ∷ sends) = ap (◌∷◌ s) (together_start sends)

get_elem?_bound :
    (xs : List (List ℕ)) (i : ℕ) (x : List ℕ) → get_elem? xs i ≡ some x → i < length xs
get_elem?_bound [] i x h = absurd (ground (arith, h))
get_elem?_bound (y ∷ xs) zero x h = omega arith
get_elem?_bound (y ∷ xs) (suc i) x h = omega (arith, get_elem?_bound xs i x h)

get_elem?_below :
    (xs : List (List ℕ)) (i : ℕ) → i < length xs → (x : List ℕ) × (get_elem? xs i ≡ some x)
get_elem?_below [] i h = elim h [ ]
get_elem?_below (y ∷ xs) zero h = (y, refl)
get_elem?_below (y ∷ xs) (suc i) h = get_elem?_below xs i (omega (arith, h))

-- What is left to do: the sends, the joins and the ends of streams.
abbrev pub remaining : List (List ℕ) → ℕ
remaining [] = 0
remaining (p ∷ pending) = length p + remaining pending

abbrev pub work : Running → ℕ
work s = remaining s.pending + ((length s.pending - s.joined) + (length s.pending - s.ended))

remaining-set :
    (pending : List (List ℕ)) (i x : ℕ) (rest : List ℕ)
    → get_elem? pending i ≡ some (x ∷ rest)
    → suc (remaining (set pending i rest)) ≡ remaining pending
remaining-set [] i x rest h = absurd (ground (arith, h))
remaining-set (p ∷ pending) zero x rest h =
    let p_is : p ≡ x ∷ rest = ground (arith, h) in rw p_is (omega arith)
remaining-set (p ∷ pending) (suc i) x rest h = omega (arith, remaining-set pending i x rest h)

record IsOrdered (sends : List (List ℕ)) (s : Running) : Type 0 where
  whole : together s.sent s.pending ≡ sends
  sized : length s.sent ≡ length s.pending
  quiet : (i : ℕ) → i < s.joined → get_elem? s.pending i ≡ some []
  ends_last : 0 < s.ended → s.joined ≡ length s.pending
  joined_within : s.joined ≤ length s.pending
  ended_within : s.ended ≤ length s.pending

Step-IsOrdered :
    {sends : List (List ℕ)} {s t : Running} → Step s t → IsOrdered sends s → IsOrdered sends t
Step-IsOrdered (send s i x rest h) o = record {
  whole = together-send s.sent s.pending i x rest o.sized h ∙ o.whole;
  sized =
      length-set s.sent i (get_or s.sent i [] ++ x ∷ [])
      ∙ o.sized
      ∙ sym (length-set s.pending i rest);
  quiet = λ j b. set_keeps s.pending i j x rest h (o.quiet j b);
  ends_last = λ p. o.ends_last p ∙ sym (length-set s.pending i rest);
  joined_within = omega (arith, o.joined_within, length-set s.pending i rest);
  ended_within = omega (arith, o.ended_within, length-set s.pending i rest);
}
Step-IsOrdered (join s h) o = record {
  whole = o.whole;
  sized = o.sized;
  quiet = λ i b. elim (Bool-cases (ltb i s.joined)) [
    | inl before ↦ o.quiet i (ground (arith, before))
    | inr at ↦ subst (λ j. get_elem? s.pending j ≡ some []) (ground (arith, at, b)) h
  ];
  ends_last = λ p. absurd (omega (arith, o.ends_last p, get_elem?_bound s.pending s.joined [] h));
  joined_within = omega (arith, get_elem?_bound s.pending s.joined [] h);
  ended_within = o.ended_within;
}
Step-IsOrdered (end_stream s all more) o = record {
  whole = o.whole;
  sized = o.sized;
  quiet = o.quiet;
  ends_last = λ _. all;
  joined_within = o.joined_within;
  ended_within = more;
}

Reach-IsOrdered :
    {sends : List (List ℕ)} {s : Running} → Reach (spawned sends) s → IsOrdered sends s
Reach-IsOrdered {sends} here = record {
  whole = together_start sends;
  sized = length-map sends (λ _. []);
  quiet = λ i b. absurd (omega (arith, b));
  ends_last = λ p. absurd (omega (arith, p));
  joined_within = omega arith;
  ended_within = omega arith;
}
Reach-IsOrdered (next r st) = Step-IsOrdered st (Reach-IsOrdered r)

can_go_on :
    {sends : List (List ℕ)} (s : Running)
    → IsOrdered sends s
    → (s.ended ≡ length s.pending) ⊎ ((t : Running) × Step s t)
can_go_on s o = elim (Bool-cases (ltb s.joined (length s.pending))) [
  | inl waits ↦
      let (left, at) = get_elem?_below s.pending s.joined (ground (arith, waits)) in
      elim (List-cases left) [
        | inl none_left ↦ inr (_, join s (at ∙ ap some none_left))
        | inr (x, rest, some_left) ↦ inr (_, send s s.joined x rest (at ∙ ap some some_left))
      ]
  | inr all ↦
      let same : s.joined ≡ length s.pending = ground (arith, all, o.joined_within) in
      elim (Bool-cases (ltb s.ended (length s.pending))) [
        | inl more ↦ inr (_, end_stream s same (ground (arith, more)))
        | inr done ↦ inl (ground (arith, done, o.ended_within))
      ]
]

lowers : {sends : List (List ℕ)} {s t : Running} → IsOrdered sends s → Step s t → work t < work s
lowers o (send s i x rest h) =
    omega (arith, remaining-set s.pending i x rest h, length-set s.pending i rest)
lowers o (join s h) = omega (arith, get_elem?_bound s.pending s.joined [] h)
lowers o (end_stream s all more) = omega (arith, more)

-- In whatever order the threads send: when a stream has been ended, every thread has sent all that it
-- had to send, in its order. Until all streams have been ended, the program can go on, and each step
-- leaves less to do, so that it comes to its end.
pub ended-sent :
    (sends : List (List ℕ)) (s : Running)
    → Reach (spawned sends) s
    → (0 < s.ended → s.sent ≡ sends)
      × ((s.ended ≡ length s.pending) ⊎ ((t : Running) × Step s t))
      × ((t : Running) → Step s t → work t < work s)
ended-sent sends s r =
    let o = Reach-IsOrdered r in
    (
      λ p.
          let done =
            together_done s.sent s.pending o.sized
              (λ i b. o.quiet i (omega (arith, b, o.ends_last p))) in
          sym done ∙ o.whole,
      can_go_on s o,
      λ t. lowers o,
    )
