-- ===== src/Base/Dict.antt =====
-- `std::map` and `std::unordered_map` as association lists, and `std::unordered_set` as a list
-- without repetition. An entry that is overwritten keeps its place.
use Prim.Native.Nat.{ℕ, suc}
use mathlib.Core.Path.{◌≡◌, refl}
use mathlib.Core.Bool.{Bool, false, ◌||◌}
use mathlib.Core.Option.{Option, none, some}
use mathlib.Core.List.{List, [], ◌∷◌}
use native.Mathlib.Omega.{arith}
use ch_frb_l.Base.Tests.{if◌then◌else◌}
use ch_frb_l.Base.Equality.{Eq, ◌==◌}
use ch_frb_l.Base.Lists.{length}

module _ {ℓ κ} {K : Type ℓ} {V : Type κ} ⦃e : Eq K⦄ where
  unfoldable pub lookup : K → List (K × V) → Option V
  lookup key ((other, value) ∷ rest) = if other == key then some value else lookup key rest
  lookup key [] = none

  unfoldable pub insert : K → V → List (K × V) → List (K × V)
  insert key value ((other, old) ∷ rest) =
      if other == key then (key, value) ∷ rest else (other, old) ∷ insert key value rest
  insert key value [] = (key, value) ∷ []

  pub lookup-insert :
      (key other : K) (value : V) (entries : List (K × V))
      → lookup other (insert key value entries)
        ≡ (if key == other then some value else lookup other entries)
  unfolding lookup insert
  lookup-insert key other value ((first, old) ∷ rest) = ground (
    arith,
    lookup-insert key other value rest,
    e.beq_iff first key,
    e.beq_iff first other,
    e.beq_iff key other,
  )
  lookup-insert key other value [] = refl

  -- A new key makes the map longer by one; a known key keeps the length.
  pub length-insert :
      (k : K) (v : V) (m : List (K × V))
      → length (insert k v m)
        ≡ elim (lookup k m) as (λ _. ℕ) [ none ↦ suc (length m) | some _ ↦ length m ]
  unfolding lookup insert
  length-insert k v [] = refl
  length-insert k v ((i, w) ∷ m) = ground (arith, length-insert k v m)

module _ {ℓ} {A : Type ℓ} ⦃e : Eq A⦄ where
  unfoldable pub contains : A → List A → Bool
  contains a [] = false
  contains a (x ∷ xs) = x == a || contains a xs

  -- insert() of a set.
  unfoldable pub add : A → List A → List A
  add a xs = if contains a xs then xs else a ∷ xs

  pub contains-add : (a b : A) (xs : List A) → contains b (add a xs) ≡ (a == b || contains b xs)
  unfolding add contains
  contains-add a b xs = ground (arith, e.beq_iff a b)

pub ruleset dict_laws = (lookup-insert)
