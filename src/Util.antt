-- ===== src/Util.antt =====
-- The inline helpers of ch_frb_l1.hpp. An `int` that the callers have found to be at least 0 is a
-- natural number; the argument of the two roundings is one too, as at their call sites.
pub mod Power
pub mod Vectors
use Prim.Native.Nat.{bit_and}
use ch_frb_l.Base.{
  ℕ, zero, suc, ◌+◌, ◌-◌, ◌*◌, ◌/◌, ◌%◌, ◌^◌, Bool, true, false, ◌&&◌, ◌||◌, List, [], ◌∷◌, ◌++◌,
  ltb, leb, nat_beq, if◌then◌else◌, ok, err, Throws, assertion, undefined, assert, ◌>>=◌, ◌>>◌, Eq,
  ◌==◌,
}

unfoldable pub xdiv : ℕ → ℕ → Throws ℕ
xdiv num den = do assert (ltb 0 num && (ltb 0 den && nat_beq (num % den) 0)); ok (num / den)

unfoldable pub is_power_of_two : ℕ → Throws Bool
is_power_of_two n = do assert (leb 1 n); ok (nat_beq (bit_and n (n - 1)) 0)

-- A product or a sum in the type `int`.
unfoldable pub int_result : ℕ → Throws ℕ
int_result n = if ltb n (2 ^ 31) then ok n else err undefined

-- The calls pass an integer; `floor_log2` is its `int(floor(log2(x)))`.
unfoldable pub round_down_to_power_of_two : (ℕ → ℕ) → ℕ → Throws ℕ
round_down_to_power_of_two floor_log2 x = do
  assert (leb 1 x && ltb x 1000000000)
  ok (2 ^ floor_log2 x)

-- `n` consecutive integers from `lo`.
unfoldable pub counted : ℕ → ℕ → List ℕ
counted lo zero = []
counted lo (suc n) = lo ∷ counted (suc lo) n

unfoldable pub vrange : ℕ → ℕ → Throws (List ℕ)
unfolding counted
vrange lo hi = do assert (leb lo hi); ok (counted lo (hi - lo))

unfoldable pub vconcat {ℓ} : {A : Type ℓ} → List A → List A → List A
vconcat v1 v2 = v1 ++ v2

module _ {ℓ} {A : Type ℓ} ⦃e : Eq A⦄ where
  unfoldable pub vcontains : List A → A → Bool
  vcontains [] x = false
  vcontains (y ∷ v) x = y == x || vcontains v x
