-- ===== src/L1Config/Addresses/Find.antt =====
-- Where the searches stop in a text that is put together from known parts.
use ch_frb_l.Base.{
  ℕ, zero, suc, ◌+◌, ◌≤◌, ◌≡◌, refl, ap, Bool, false, ◌||◌, [], ◌∷◌, ◌++◌, none, some, Text,
  nat_beq, length, take, drop, arith,
}
use ch_frb_l.L1Config.Addresses.{find, rfind, find_slashes}

abbrev pub has : ℕ → Text → Bool
has x [] = false
has x (c ∷ t) = nat_beq c x || has x t

pub find-append :
    (x i : ℕ) (s t : Text) → has x s ≡ false → find x i (s ++ x ∷ t) ≡ some (i + length s)
unfolding find
find-append x i [] t h = ground arith
find-append x i (c ∷ s) t h = ground (arith, find-append x (suc i) s t)

rfind-none : (x i : ℕ) (t : Text) → has x t ≡ false → rfind x i t ≡ none
unfolding rfind
rfind-none x i [] h = refl
rfind-none x i (c ∷ t) h = ground (arith, rfind-none x (suc i) t)

pub rfind-append :
    (x i : ℕ) (s t : Text) → has x t ≡ false → rfind x i (s ++ x ∷ t) ≡ some (i + length s)
unfolding rfind
rfind-append x i [] t h = ground (arith, rfind-none x (suc i) t h)
rfind-append x i (c ∷ s) t h = ground (arith, rfind-append x (suc i) s t h)

pub find_slashes-append :
    (i : ℕ) (s t : Text)
    → has b'/' s ≡ false
    → find_slashes i (s ++ b'/' ∷ b'/' ∷ t) ≡ some (i + length s)
unfolding find_slashes
find_slashes-append i [] t h = ground arith
find_slashes-append i (c ∷ []) t h = ground (arith, find_slashes-append (suc i) [] t refl)
find_slashes-append i (c ∷ d ∷ s) t h = ground (arith, find_slashes-append (suc i) (d ∷ s) t)

pub drop-append : (s t : Text) → drop (length s) (s ++ t) ≡ t
drop-append [] t = refl
drop-append (c ∷ s) t = drop-append s t

pub take_all : (n : ℕ) (t : Text) → length t ≤ n → take n t ≡ t
take_all zero [] h = refl
take_all zero (c ∷ t) h = elim h [ ]
take_all (suc n) [] h = refl
take_all (suc n) (c ∷ t) h = ap (◌∷◌ c) (take_all n t (omega arith))

pub has-append : (x : ℕ) (s t : Text) → has x (s ++ t) ≡ (has x s || has x t)
has-append x [] t = refl
has-append x (c ∷ s) t = ground (arith, has-append x s t)
