-- ===== src/L1Server/Rpc/Pointers.antt =====
-- Vectors of pointers: when all of them are set.
use ch_frb_l.Base.{
  ℕ, zero, suc, ◌<◌, ◌≤◌, ◌≡◌, refl, ap, ◌∙◌, Bool, true, false, ◌&&◌, ◌||◌, List, [], ◌∷◌, Option,
  none, some, arith, length, nat_beq, replicate, set,
}
use ch_frb_l.L1Server.Rpc.{gotn}

-- Every pointer is set.
abbrev pub complete : {A : Type 0} → List (Option A) → Bool
complete [] = true
complete (none ∷ xs) = false
complete (some x ∷ xs) = complete xs

pub gotn_most : {A : Type 0} (xs : List (Option A)) → gotn xs ≤ length xs
unfolding gotn
gotn_most [] = omega arith
gotn_most (none ∷ xs) = omega (arith, gotn_most xs)
gotn_most (some x ∷ xs) = omega (arith, gotn_most xs)

pub gotn-complete :
    {A : Type 0} (xs : List (Option A)) → nat_beq (gotn xs) (length xs) ≡ complete xs
unfolding gotn
gotn-complete [] = refl
gotn-complete (none ∷ xs) = ground (arith, gotn_most xs)
gotn-complete (some x ∷ xs) = ground (arith, gotn-complete xs)

pub set-complete :
    {A : Type 0} (xs : List (Option A)) (i : ℕ) (x : A)
    → complete xs ≡ true
    → complete (set xs i (some x)) ≡ true
set-complete [] i x h = refl
set-complete (none ∷ xs) i x h = cc
set-complete (some y ∷ xs) zero x h = h
set-complete (some y ∷ xs) (suc i) x h = set-complete xs i x h

pub length-set-some :
    {A : Type 0} (xs : List (Option A)) (i : ℕ) (x : A) → length (set xs i (some x)) ≡ length xs
length-set-some [] i x = refl
length-set-some (y ∷ xs) zero x = refl
length-set-some (y ∷ xs) (suc i) x = ap suc (length-set-some xs i x)

-- A Boolean test of all numbers below `n`.
abbrev pub all_below : ℕ → (ℕ → Bool) → Bool
all_below zero f = true
all_below (suc n) f = f 0 && all_below n (λ i. f (suc i))

pub all_below_elem : (n : ℕ) (f : ℕ → Bool) → all_below n f ≡ true → (i : ℕ) → i < n → f i ≡ true
all_below_elem zero f h i p = elim p [ ]
all_below_elem (suc n) f h zero p = ground arith
all_below_elem (suc n) f h (suc i) p =
    all_below_elem n (λ j. f (suc j)) (ground arith) i (omega arith)

pub all_below_eq :
    (n : ℕ) (f g : ℕ → Bool) → ((i : ℕ) → i < n → f i ≡ g i) → all_below n f ≡ all_below n g
all_below_eq zero f g h = refl
all_below_eq (suc n) f g h =
    let rest = all_below_eq n (λ i. f (suc i)) (λ i. g (suc i)) (λ i p. h (suc i) (omega arith)) in
    rw (h 0 (omega arith), rest) refl

abbrev pub is_set : {A : Type 0} → List (Option A) → ℕ → Bool
is_set [] i = false
is_set (none ∷ xs) zero = false
is_set (some x ∷ xs) zero = true
is_set (y ∷ xs) (suc i) = is_set xs i

pub complete_eq :
    {A : Type 0} (xs : List (Option A)) → complete xs ≡ all_below (length xs) (is_set xs)
complete_eq [] = refl
complete_eq (none ∷ xs) = refl
complete_eq (some x ∷ xs) = complete_eq xs

pub is_set-set :
    {A : Type 0} (xs : List (Option A)) (i j : ℕ) (x : A)
    → i < length xs
    → is_set (set xs j (some x)) i ≡ (nat_beq j i || is_set xs i)
is_set-set [] i j x h = elim h [ ]
is_set-set (none ∷ xs) zero zero x h = refl
is_set-set (some y ∷ xs) zero zero x h = refl
is_set-set (none ∷ xs) zero (suc j) x h = ground arith
is_set-set (some y ∷ xs) zero (suc j) x h = ground arith
is_set-set (none ∷ xs) (suc i) zero x h = ground arith
is_set-set (some y ∷ xs) (suc i) zero x h = ground arith
is_set-set (none ∷ xs) (suc i) (suc j) x h = is_set-set xs i j x (omega arith) ∙ ground arith
is_set-set (some y ∷ xs) (suc i) (suc j) x h = is_set-set xs i j x (omega arith) ∙ ground arith

pub is_set-replicate : (A : Type 0) (n i : ℕ) → is_set {A = A} (replicate n none) i ≡ false
is_set-replicate A zero i = refl
is_set-replicate A (suc n) zero = refl
is_set-replicate A (suc n) (suc i) = is_set-replicate A n i
