-- ===== src/Base/Equality.antt =====
-- Boolean equality as an instance, and texts as lists of byte codes.
use Prim.Native.Nat.{ℕ}
use Prim.Native.Char.{code}
use Prim.Native.String.{String}
use mathlib.Core.Path.{◌≡◌}
use mathlib.Core.Bool.{Bool, true, false, ◌&&◌}
use mathlib.Core.Logic.{◌↔◌}
use mathlib.Core.List.{List, [], ◌∷◌}
use native.Mathlib.Omega.{arith}
use ch_frb_l.Base.Tests.{nat_beq, nat_beq_iff}
use ch_frb_l.Base.Int.{ℤ, int_beq, int_beq_iff}

-- `operator==` of a type, and that it decides equality.
pub record Eq {ℓ} (Value : Type ℓ) : Type ℓ where
  pub beq : Value → Value → Bool
  pub beq_iff : (x y : Value) → (beq x y ≡ true) ↔ (x ≡ y)

infix 50 ◌==◌
abbrev pub ◌==◌ {ℓ} : {Value : Type ℓ} ⦃equality : Eq Value⦄ → Value → Value → Bool
◌==◌ ⦃equality⦄ = equality.beq

-- A `std::string` is the list of its bytes.
abbrev pub Text : Type 0
Text = List ℕ

abbrev pub txt : String → Text
txt String.[] = []
txt (String.◌∷◌ c s) = code c ∷ txt s

abbrev pub text_beq : Text → Text → Bool
text_beq (a ∷ p) (b ∷ q) = nat_beq a b && text_beq p q
text_beq [] [] = true
text_beq (a ∷ p) [] = false
text_beq [] (b ∷ q) = false

pub text_beq_iff : (p q : Text) → (text_beq p q ≡ true) ↔ (p ≡ q)
text_beq_iff (a ∷ p) (b ∷ q) = ground (arith, text_beq_iff p q)
text_beq_iff (a ∷ p) [] = ground arith
text_beq_iff [] (b ∷ q) = ground arith
text_beq_iff [] [] = ground arith

abbrev pub pair_beq {ℓ κ} : {A : Type ℓ} {B : Type κ} ⦃e : Eq A⦄ ⦃f : Eq B⦄ → A × B → A × B → Bool
pair_beq (a, b) (c, d) = a == c && b == d

pub pair_beq_iff {ℓ κ} :
    {A : Type ℓ} {B : Type κ} ⦃e : Eq A⦄ ⦃f : Eq B⦄ (p q : A × B) → (pair_beq p q ≡ true) ↔ (p ≡ q)
pair_beq_iff ⦃e⦄ ⦃f⦄ (a, b) (c, d) = ground (arith, e.beq_iff a c, f.beq_iff b d)

instance abbrev pub nat_eq : Eq ℕ
nat_eq = record { beq = nat_beq; beq_iff = nat_beq_iff }

instance abbrev pub int_eq : Eq ℤ
int_eq = record { beq = int_beq; beq_iff = int_beq_iff }

instance abbrev pub text_eq : Eq Text
text_eq = record { beq = text_beq; beq_iff = text_beq_iff }

instance abbrev pub pair_eq {ℓ κ} : {A : Type ℓ} {B : Type κ} ⦃e : Eq A⦄ ⦃f : Eq B⦄ → Eq (A × B)
pair_eq = record { beq = pair_beq; beq_iff = pair_beq_iff }
