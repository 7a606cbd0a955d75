-- ===== src/Rpc/Replace.antt =====
-- replaceAll of l1-rpc.cpp: the first occurrence of `from` is replaced until none is left.
use ch_frb_l.Base.{
  ℕ, zero, suc, ◌+◌, ◌≤◌, ◌<◌, ◌≡◌, inl, inr, refl, ap, Bool, true, false, ◌&&◌, List, [], ◌∷◌,
  ◌++◌, Option, none, some, if◌then◌else◌, Text, nat_beq, length, length-append, length-drop, take,
  drop, arith, Option-cases, Bool-cases,
}

starts_with : Text → Text → Bool
starts_with [] t = true
starts_with (c ∷ p) [] = false
starts_with (c ∷ p) (d ∷ t) = nat_beq c d && starts_with p t

-- s.find(from): the first position, or npos.
unfoldable pub find : Text → Text → Option ℕ
unfolding starts_with
find from [] = if starts_with from [] then some 0 else none
find from (c ∷ s) =
    if starts_with from (c ∷ s)
    then some 0
    else elim (find from s) [ none ↦ none | some i ↦ some (suc i) ]

unfoldable pub replace_at : ℕ → Text → Text → Text → Text
replace_at i from to s = take i s ++ (to ++ drop (i + length from) s)

-- At most `fuel` replacements; `none` means that the loop is not done.
replace_loop : ℕ → Text → Text → Text → Option Text
replace_loop zero from to s = elim (find from s) [ none ↦ some s | some i ↦ none ]
replace_loop (suc fuel) from to s = elim (find from s) [
  | none ↦ some s
  | some i ↦ replace_loop fuel from to (replace_at i from to s)
]

-- With a `to` shorter than `from` each replacement shortens the text: as many as the text has bytes are
-- enough.
unfoldable pub replace_all : Text → Text → Text → Option Text
unfolding replace_loop
replace_all s from to = replace_loop (length s) from to s

starts_with-length : (p t : Text) → starts_with p t ≡ true → length p ≤ length t
unfolding starts_with
starts_with-length [] t h = omega arith
starts_with-length (c ∷ p) [] h = cc
starts_with-length (c ∷ p) (d ∷ t) h = ground (arith, starts_with-length p t)

find-fits : (from s : Text) (i : ℕ) → find from s ≡ some i → i + length from ≤ length s
unfolding find
find-fits from [] i h = ground (arith, starts_with-length from [])
find-fits from (c ∷ s) i h = elim (Bool-cases (starts_with from (c ∷ s))) [
  | inl e ↦ ground (arith, starts_with-length from (c ∷ s))
  | inr e ↦ elim (Option-cases (find from s)) [
    | inl missing ↦ absurd (ground arith)
    | inr (j, found) ↦ ground (arith, find-fits from s j found)
  ]
]

length-take_le : {A : Type 0} (n : ℕ) (xs : List A) → n ≤ length xs → length (take n xs) ≡ n
length-take_le zero xs h = refl
length-take_le (suc n) [] h = absurd (omega arith)
length-take_le (suc n) (x ∷ xs) h = ap suc (length-take_le n xs (omega arith))

length-replace_at :
    (i : ℕ) (from to s : Text)
    → i + length from ≤ length s
    → length (replace_at i from to s) + length from ≡ length s + length to
unfolding replace_at
length-replace_at i from to s h = omega (
  arith,
  length-append (take i s) (to ++ drop (i + length from) s),
  length-append to (drop (i + length from) s),
  length-take_le i s (omega arith),
  length-drop (i + length from) s,
)

loop_total :
    (fuel : ℕ) (from to s : Text)
    → length to < length from
    → length s ≤ fuel
    → (t : Text) × (replace_loop fuel from to s ≡ some t) × (find from t ≡ none)
unfolding replace_loop
loop_total zero from to s h k = elim (Option-cases (find from s)) [
  | inl e ↦ (s, rw (e, replace_loop), e)
  | inr (i, e) ↦ absurd (omega (arith, find-fits from s i e))
]
loop_total (suc fuel) from to s h k = elim (Option-cases (find from s)) [
  | inl e ↦ (s, rw (e, replace_loop), e)
  | inr (i, e) ↦
      let (t, runs, gone) =
        loop_total fuel from to (replace_at i from to s) h
          (omega (arith, length-replace_at i from to s (find-fits from s i e))) in
      (t, rw (e, replace_loop, runs), gone)
]

-- When `to` is shorter than `from`, the replacement ends, with a text that does not hold `from`.
pub replace_all_total :
    (s from to : Text)
    → length to < length from
    → (t : Text) × (replace_all s from to ≡ some t) × (find from t ≡ none)
unfolding replace_all
replace_all_total s from to h = loop_total (length s) from to s h (omega arith)
