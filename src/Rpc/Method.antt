-- ===== src/Rpc/Method.antt =====
-- Methods that change an object and may throw: the object comes back beside an exception too.
use ch_frb_l.Base.{ok, err, Throws, Failure, Bool, true, false, if◌then◌else◌, ◌≡◌, refl, ap}

abbrev pub Method : Type 0 → Type 0 → Type 0
Method S A = S → Throws A × S

abbrev pub return : {S A : Type 0} → A → Method S A
return a s = (ok a, s)

abbrev pub lift : {S A : Type 0} → Throws A → Method S A
lift r s = (r, s)

infixl 5 ◌>>=◌ ◌>>◌
abbrev pub ◌>>=◌ : {S A B : Type 0} → Method S A → (A → Method S B) → Method S B
◌>>=◌ m f s = let (r, s') = m s in elim r [ ok a ↦ f a s' | err e ↦ (err e, s') ]

abbrev pub ◌>>◌ : {S A B : Type 0} → Method S A → Method S B → Method S B
m >> k = m >>= λ _. k

-- What holds after `m >>= f`: what holds after `f` where `m` returns, and where `m` throws.
pub bind-cases :
    {S A B : Type 0} (Q : Throws B × S → Type 0) (m : Method S A) (f : A → Method S B) (s : S)
    → ((a : A) (s' : S) → m s ≡ (ok a, s') → Q (f a s'))
    → ((e : Failure) (s' : S) → m s ≡ (err e, s') → Q (err e, s'))
    → Q ((m >>= f) s)
bind-cases {S} {A} {B} Q m f s returns throws = at (m s) refl
  where
    at : (r : Throws A × S) → m s ≡ r → Q (elim r.0 [ ok a ↦ f a r.1 | err e ↦ (err e, r.1) ])
    at (ok a, s') h = returns a s' h
    at (err e, s') h = throws e s' h

pub if-cases :
    {S A : Type 0} (Q : Throws A × S → Type 0) (b : Bool) (m n : Method S A) (s : S)
    → Q (m s)
    → Q (n s)
    → Q ((if b then m else n) s)
if-cases Q true m n s p q = p
if-cases Q false m n s p q = q

-- `o` is what the first method comes to.
pub returns-bind :
    {S A B : Type 0} (f : A → Method S B) {o : Throws A × S} {s' : S} {a : A}
    → o ≡ (ok a, s')
    → elim o.0 as (λ _. Throws B × S) [ ok a ↦ f a o.1 | err e ↦ (err e, o.1) ] ≡ f a s'
returns-bind {S} {A} {B} f h =
    ap
      (λ (r : Throws A × S). elim r.0 as (λ _. Throws B × S) [
        | ok a ↦ f a r.1
        | err e ↦ (err e, r.1)
      ])
      h
