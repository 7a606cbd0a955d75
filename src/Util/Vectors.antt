-- ===== src/Util/Vectors.antt =====
-- What `vrange` and `vcontains` return, and when `xdiv` does.
use native.Mathlib.Nat.{div-add-mod', mul-div_cancel, mul-mod_left}
use ch_frb_l.Base.{
  sym, ◌∙◌, ℕ, zero, suc, ◌+◌, ◌*◌, ◌/◌, ◌%◌, ◌<◌, ◌≡◌, refl, ◌↔◌, inl, inr, true, List, [], ◌∷◌,
  ok, Eq, ◌==◌, arith, get_elem?, ap, some, length, Bool-cases,
}
use ch_frb_l.Util.{xdiv, counted, vcontains}

pub length-counted : (lo n : ℕ) → length (counted lo n) ≡ n
unfolding counted
length-counted lo zero = refl
length-counted lo (suc n) = omega (arith, length-counted (suc lo) n)

get_elem?-counted : (lo n i : ℕ) → i < n → get_elem? (counted lo n) i ≡ some (lo + i)
unfolding counted
get_elem?-counted lo zero i h = elim h [ ]
get_elem?-counted lo (suc n) zero h = ground arith
get_elem?-counted lo (suc n) (suc i) h = ground (arith, get_elem?-counted (suc lo) n i)

-- An exact quotient: `xdiv` returns `q` exactly when `q` times the divisor is the dividend, both
-- positive.
pub xdiv_iff : (n d q : ℕ) → (xdiv n d ≡ ok q) ↔ ((q * d ≡ n) × (0 < n) × (0 < d))
unfolding xdiv
xdiv_iff n d q = (
  λ h. ground (arith, div-add-mod' n d),
  λ (e, hn, hd).
      let whole : n / d ≡ q = ap (λ (t : ℕ). t / d) (sym e) ∙ mul-div_cancel q hd in
      let rest : n % d ≡ 0 = ap (λ (t : ℕ). t % d) (sym e) ∙ mul-mod_left q d in
      ground (arith, whole, rest),
)

pub factor_pos : (a b c : ℕ) → a * b ≡ c → 0 < c → 0 < a
factor_pos zero b c e h = absurd (omega arith)
factor_pos (suc a) b c e h = omega arith

module _ {ℓ} {A : Type ℓ} ⦃e : Eq A⦄ where
  vcontains_index : (v : List A) (x : A) → vcontains v x ≡ true → (i : ℕ) × (get_elem? v i ≡ some x)
  unfolding vcontains
  vcontains_index [] x h = cc
  vcontains_index (y ∷ v) x h = elim (Bool-cases (y == x)) [
    | inl hit ↦ (0, ap some ((e.beq_iff y x).0 hit))
    | inr miss ↦ let rest = vcontains_index v x (ground arith) in (suc rest.0, rest.1)
  ]

  vcontains_of_index : (v : List A) (x : A) (i : ℕ) → get_elem? v i ≡ some x → vcontains v x ≡ true
  unfolding vcontains
  vcontains_of_index [] x i h = cc
  vcontains_of_index (y ∷ v) x zero h = ground (arith, e.beq_iff y x)
  vcontains_of_index (y ∷ v) x (suc i) h = ground (arith, vcontains_of_index v x i h)

  -- `vcontains` finds exactly the elements of the vector.
  vcontains_iff :
      (v : List A) (x : A) → (vcontains v x ≡ true) ↔ ((i : ℕ) × (get_elem? v i ≡ some x))
  vcontains_iff v x = (vcontains_index v x, λ (i, h). vcontains_of_index v x i h)
