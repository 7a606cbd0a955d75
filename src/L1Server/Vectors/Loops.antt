-- ===== src/L1Server/Vectors/Loops.antt =====
-- What the loops over consecutive indices return.
use ch_frb_l.Base.{
  ℕ, zero, suc, ◌+◌, ◌≤◌, ◌<◌, ◌≡◌, refl, sym, ◌∙◌, ap, List, [], ◌∷◌, Option, some, none, ok, err,
  Throws, Failure, length, get_elem?, arith, ok_injective, Result-cases, inl, inr, replicate,
}
use ch_frb_l.Util.{counted}
use ch_frb_l.L1Server.Vectors.{at, for_each, resize}

pub at-ok :
    {A : Type 0} (xs : List A) (i : ℕ)
    → i < length xs
    → (x : A) × (get_elem? xs i ≡ some x) × (at xs i ≡ ok x)
at-ok [] i h = elim h [ ]
at-ok (x ∷ xs) zero h = (x, refl, refl)
at-ok (x ∷ xs) (suc i) h = at-ok xs i (omega arith)

-- A loop over consecutive indices returns if each of its rounds does, with an element for each.
pub for_each-counted :
    {B : Type 0} (f : ℕ → Throws B) (lo n : ℕ)
    → ((i : ℕ) → lo ≤ i → i < lo + n → (y : B) × (f i ≡ ok y))
    → (ys : List B) × (for_each f (counted lo n) ≡ ok ys) × (length ys ≡ n)
unfolding for_each counted
for_each-counted f lo zero h = ([], refl, refl)
for_each-counted f lo (suc n) h =
    let (y, e) = h lo (omega arith) (omega arith) in
    let (ys, g, size) = for_each-counted f (suc lo) n (λ i p q. h i (omega arith) (omega arith)) in
    (y ∷ ys, rw (for_each, e, g) refl, ap suc size)

-- The element at an index, from the first one and those of the rest.
at_index :
    {B : Type 0} (f : ℕ → Throws B) (lo n i : ℕ) (y : B) (rest : List B)
    → f lo ≡ ok y
    → ((j : ℕ) → j < n → (z : B) × (get_elem? rest j ≡ some z) × (f (suc lo + j) ≡ ok z))
    → i < suc n
    → (z : B) × (get_elem? (y ∷ rest) i ≡ some z) × (f (lo + i) ≡ ok z)
at_index f lo n zero y rest e later p =
    let start : lo + 0 ≡ lo = omega arith in (y, refl, rw start e)
at_index f lo n (suc i) y rest e later p =
    let shift : lo + suc i ≡ suc lo + i = omega arith in
    let (z, g, h) = later i (omega arith) in (z, g, rw shift h)

-- What such a loop returns at an index is what the round of that index returned.
pub for_each-get_elem? :
    {B : Type 0} (f : ℕ → Throws B) (lo n i : ℕ) (ys : List B)
    → for_each f (counted lo n) ≡ ok ys
    → i < n
    → (y : B) × (get_elem? ys i ≡ some y) × (f (lo + i) ≡ ok y)
unfolding for_each counted
for_each-get_elem? f lo zero i ys h p = elim p [ ]
for_each-get_elem? f lo (suc n) i ys h p = elim (Result-cases (f lo)) [
  | inr (x, e) ↦ let no : for_each f (counted lo (suc n)) ≡ err x = rw (for_each, e) refl in cc
  | inl (y, e) ↦ elim (Result-cases (for_each f (counted (suc lo) n))) [
    | inr (x, g) ↦ let no : for_each f (counted lo (suc n)) ≡ err x = rw (for_each, e, g) refl in cc
    | inl (rest, g) ↦
        let all : for_each f (counted lo (suc n)) ≡ ok (y ∷ rest) = rw (for_each, e, g) refl in
        let same : ys ≡ y ∷ rest = ok_injective (sym h ∙ all) in
        rw same (at_index f lo n i y rest e (λ j. for_each-get_elem? f (suc lo) n j rest g) p)
  ]
]

pub resize_new : (A : Type 0) (n : ℕ) → resize {A = A} [] n ≡ replicate n none
unfolding resize
resize_new A zero = refl
resize_new A (suc n) = ap (◌∷◌ none) (resize_new A n)

pub length-resize : {A : Type 0} (xs : List (Option A)) (n : ℕ) → length (resize xs n) ≡ n
unfolding resize
length-resize xs zero = refl
length-resize [] (suc n) = ap suc (length-resize [] n)
length-resize (x ∷ xs) (suc n) = ap suc (length-resize xs n)

-- A computation that cannot throw returns.
pub returned : {A : Type 0} (r : Throws A) → ((e : Failure) → r ≡ err e → ⊥) → (a : A) × (r ≡ ok a)
returned (ok a) h = (a, refl)
returned (err e) h = absurd (h e refl)

pub for_each-length :
    {A B : Type 0} (f : A → Throws B) (xs : List A) (ys : List B)
    → for_each f xs ≡ ok ys
    → length ys ≡ length xs
unfolding for_each
for_each-length f [] ys h = ground arith
for_each-length f (x ∷ xs) ys h = elim (Result-cases (f x)) [
  | inr (e, g) ↦ absurd (ground (arith, g))
  | inl (y, g) ↦ elim (Result-cases (for_each f xs)) [
    | inr (e, k) ↦ absurd (ground (arith, g, k))
    | inl (rest, k) ↦ ground (arith, g, k, for_each-length f xs rest k)
  ]
]

-- What the loop throws is what one of its rounds threw.
pub for_each-throws :
    {A B : Type 0} (f : A → Throws B) (xs : List A) (e : Failure)
    → for_each f xs ≡ err e
    → (x : A) × (f x ≡ err e)
unfolding for_each
for_each-throws f [] e h = absurd (ground (arith, h))
for_each-throws f (x ∷ xs) e h = elim (Result-cases (f x)) [
  | inr (d, g) ↦ (x, ground (arith, g, h))
  | inl (y, g) ↦ elim (Result-cases (for_each f xs)) [
    | inr (d, k) ↦
        let (z, thrown) = for_each-throws f xs d k in (z, ground (arith, thrown, g, k, h))
    | inl (rest, k) ↦ absurd (ground (arith, g, k, h))
  ]
]

-- A loop returns if each of its rounds does.
pub for_each-returns :
    {A B : Type 0} (f : A → Throws B) (xs : List A)
    → ((x : A) → (y : B) × (f x ≡ ok y))
    → (ys : List B) × (for_each f xs ≡ ok ys)
unfolding for_each
for_each-returns f [] h = ([], refl)
for_each-returns f (x ∷ xs) h =
    let (y, e) = h x in let (ys, g) = for_each-returns f xs h in (y ∷ ys, rw (for_each, e, g) refl)
