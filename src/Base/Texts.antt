-- ===== src/Base/Texts.antt =====
-- How a computation of the server can end other than by returning, and texts for its messages.
use Prim.Native.Nat.{ℕ, zero, suc, ◌+◌, ◌-◌, ◌/◌, ◌%◌}
use Prim.Native.String.{String}
use mathlib.Core.Bool.{Bool, true, false, ◌&&◌}
use mathlib.Core.List.{[], ◌∷◌, ◌++◌}
use ch_frb_l.Base.Tests.{leb, nat_beq}
use ch_frb_l.Base.Int.{ℤ, pos, negsuc}
use ch_frb_l.Base.Equality.{Text, txt}
use ch_frb_l.Base.Lists.{length, replicate}
use ch_frb_l.Base.Exceptions.{Result, ok, err}

-- `runtime_error` is a `std::exception`; `thrown_text` is a `throw("...")` of a plain character
-- pointer, which no `catch (std::exception &)` catches; `assertion` is a failed `assert`; `exit` ends
-- the process; `undefined` is an operation that the C++ standard leaves undefined.
pub data Failure : Type 0 where
  runtime_error thrown_text : Text → Failure
  assertion undefined : Failure
  exit : ℕ → Failure

abbrev pub Throws : Type 0 → Type 0
Throws A = Result Failure A

-- The text of a message. It stays shut, so that proofs do not walk through it.
unfoldable pub msg : String → Text
msg s = txt s

abbrev pub throws : {A : Type 0} → Text → Throws A
throws t = err (runtime_error t)

abbrev pub assert : Bool → Throws Unit
assert true = ok tt
assert false = err assertion

-- The decimal digits of `n`, before `acc`; the fuel `n + 1` is more than the number of digits.
decimal : ℕ → ℕ → Text → Text
decimal zero n acc = acc
decimal (suc f) n acc = elim (leb 10 n) [
  | true ↦ decimal f (n / 10) ((48 + n % 10) ∷ acc)
  | false ↦ (48 + n) ∷ acc
]

-- The second text begins with the first one.
unfoldable pub begins : Text → Text → Bool
begins [] t = true
begins (c ∷ s) [] = false
begins (c ∷ s) (d ∷ t) = nat_beq c d && begins s t

-- std::to_string
unfoldable pub to_string : ℕ → Text
unfolding decimal
to_string n = decimal (suc n) n []

unfoldable pub int_to_string : ℤ → Text
unfolding to_string
int_to_string (pos n) = to_string n
int_to_string (negsuc n) = b'-' ∷ to_string (suc n)

-- setfill('0') << setw(w): the padding goes before the sign too.
unfoldable pub setw : ℕ → Text → Text
setw w t = replicate (w - length t) b'0' ++ t
