-- ===== src/Util/Power.antt =====
-- Powers of two: the bit test of `is_power_of_two`.
use Prim.Native.Nat.{bit_and, bit_and-bitwise, digits}
use native.Mathlib.Nat.{pow-suc, one-le-pow}
use ch_frb_l.Base.{
  ℕ, zero, suc, ◌+◌, ◌-◌, ◌*◌, ◌/◌, ◌%◌, ◌^◌, ◌≤◌, ◌<◌, min, ◌≡◌, refl, ap, ◌↔◌, ◌⊎◌, inl, inr,
  true, ok, err, assertion, arith,
}
use ch_frb_l.Util.{is_power_of_two}

pub power-pos : (k : ℕ) → 0 < 2 ^ k
power-pos k = one-le-pow k 2 (omega arith)

-- The digit recursion of `&`, one digit at a time.
abbrev conj : ℕ → ℕ → ℕ → ℕ
conj f = digits (λ _. zero) min f

conj_enough : (f g x y : ℕ) → x ≤ f → x ≤ g → conj f x y ≡ conj g x y
conj_enough zero zero x y _ _ = refl
conj_enough zero (suc g) zero y _ _ = refl
conj_enough zero (suc g) (suc x) y p _ = absurd (omega arith)
conj_enough (suc f) zero zero y _ _ = refl
conj_enough (suc f) zero (suc x) y _ q = absurd (omega arith)
conj_enough (suc f) (suc g) zero y _ _ = refl
conj_enough (suc f) (suc g) (suc x) y p q =
    let ih = conj_enough f g (suc x / 2) (y / 2) (omega arith) (omega arith) in omega arith

and_halves : (x y : ℕ) → bit_and x y ≡ min (x % 2) (y % 2) + 2 * bit_and (x / 2) (y / 2)
and_halves zero y = omega (arith, bit_and-bitwise 0 y, bit_and-bitwise 0 (y / 2))
and_halves (suc x) y =
    let fits = conj_enough x (suc x / 2) (suc x / 2) (y / 2) (omega arith) (omega arith) in
    omega (arith, bit_and-bitwise (suc x) y, bit_and-bitwise (suc x / 2) (y / 2), fits)

and_self_fuel : (f x : ℕ) → x ≤ f → bit_and x x ≡ x
and_self_fuel zero zero h = refl
and_self_fuel zero (suc x) h = absurd (omega arith)
and_self_fuel (suc f) zero h = refl
and_self_fuel (suc f) (suc x) h =
    omega (arith, and_halves (suc x) (suc x), and_self_fuel f (suc x / 2) (omega arith))

abbrev IsPowerOfTwo : ℕ → Type 0
IsPowerOfTwo n = (k : ℕ) × (n ≡ 2 ^ k)

and_pred_even : (n : ℕ) → 1 ≤ n → n % 2 ≡ 0 → bit_and n (n - 1) ≡ 2 * bit_and (n / 2) (n / 2 - 1)
and_pred_even n h e =
    let half : (n - 1) / 2 ≡ n / 2 - 1 = omega arith in
    omega (arith, and_halves n (n - 1), ap (bit_and (n / 2)) half)

and_pred_odd : (n : ℕ) → n % 2 ≡ 1 → bit_and n (n - 1) ≡ 2 * (n / 2)
and_pred_odd n e =
    let half : (n - 1) / 2 ≡ n / 2 = omega arith in
    omega (
      arith,
      and_halves n (n - 1),
      ap (bit_and (n / 2)) half,
      and_self_fuel (n / 2) (n / 2) (omega arith),
    )

parity : (n : ℕ) → (n % 2 ≡ 0) ⊎ (n % 2 ≡ 1)
parity n = omega arith

power_of_zero_and : (f n : ℕ) → n ≤ f → 1 ≤ n → bit_and n (n - 1) ≡ 0 → IsPowerOfTwo n
power_of_zero_and zero n h p e = absurd (omega arith)
power_of_zero_and (suc f) n h p e = elim (parity n) [
  | inl even ↦
      let half =
        power_of_zero_and f (n / 2) (omega arith) (omega arith)
          (omega (arith, and_pred_even n p even)) in
      (suc half.0, omega (arith, half.1, pow-suc 2 half.0))
  | inr odd ↦ (0, omega (arith, and_pred_odd n odd))
]

zero_and_of_power : (k : ℕ) → bit_and (2 ^ k) (2 ^ k - 1) ≡ 0
zero_and_of_power zero = refl
zero_and_of_power (suc k) =
    let double = pow-suc 2 k in
    let half : 2 ^ suc k / 2 ≡ 2 ^ k = omega arith in
    let pos : 1 ≤ 2 ^ suc k = omega (arith, one-le-pow k 2 (omega arith)) in
    omega (
      arith,
      and_pred_even (2 ^ suc k) pos (omega arith),
      ap (λ (m : ℕ). bit_and m (m - 1)) half,
      zero_and_of_power k,
    )

-- The bit test finds the powers of two among the positive integers, and fails its assertion at 0.
pub is_power_of_two_iff :
    (n : ℕ)
    → ((is_power_of_two n ≡ ok true) ↔ ((k : ℕ) × (n ≡ 2 ^ k)))
      × ((is_power_of_two n ≡ err assertion) ↔ (n ≡ 0))
unfolding is_power_of_two
is_power_of_two_iff n = (
  (
    (λ h. power_of_zero_and n n (omega arith) (ground arith) (ground arith)),
    λ (k, e). rw e (ground (arith, zero_and_of_power k, one-le-pow k 2)),
  ),
  ground arith,
)
