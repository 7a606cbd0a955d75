-- ===== src/L1Server/Vectors.antt =====
-- Reads and loops over vectors; an access out of bounds is undefined.
pub mod Loops
use ch_frb_l.Base.{
  ℕ, zero, suc, ◌+◌, ◌-◌, ◌*◌, ◌/◌, Bool, true, false, not, ◌&&◌, ◌||◌, List, [], ◌∷◌, ◌++◌, map,
  Option, none, some, if◌then◌else◌, ok, err, Throws, Failure, thrown_text, undefined, ◌>>=◌, ◌>>◌,
  throw_if, msg, Text, to_string, int_to_string, ltb, leb, nat_beq, length, get_elem?, get_or, take,
  drop, filter, replicate, ℤ, pos, pos_part, is_pos, int_eq,
}

-- `xs[i]` and `vector<T>(xs.begin() + lo, xs.begin() + hi)`
abbrev pub at : {A : Type 0} → List A → ℕ → Throws A
at xs i = elim (get_elem? xs i) [ some x ↦ ok x | none ↦ err undefined ]

abbrev pub slice : {A : Type 0} → ℕ → ℕ → List A → Throws (List A)
slice lo hi xs = if leb hi (length xs) then ok (take (hi - lo) (drop lo xs)) else err undefined

-- A loop that fills a vector, one element for each index.
unfoldable pub for_each : {A B : Type 0} → (A → Throws B) → List A → Throws (List B)
for_each f [] = ok []
for_each f (x ∷ xs) = do y ← f x; ys ← for_each f xs; ok (y ∷ ys)

-- resize() of a vector of pointers: those that are there stay, new ones are null.
unfoldable pub resize : {A : Type 0} → List (Option A) → ℕ → List (Option A)
resize xs zero = []
resize [] (suc n) = none ∷ resize [] n
resize (x ∷ xs) (suc n) = x ∷ resize xs n
