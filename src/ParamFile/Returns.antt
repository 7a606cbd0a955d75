-- ===== src/ParamFile/Returns.antt =====
-- What a sequence of reads returns, when it returns.
use ch_frb_l.Base.{◌≡◌, subst, inl, inr, ok, err, Throws, arith, Result-cases, text_eq, int_eq}
use ch_frb_l.ParamFile.{ParamFile, Reader, ◌>>=◌, lift, pure}

module _ {Node A B : Type 0} where
  -- A sequence that returns: its first part does, and the rest does from there.
  pub bind-ok :
      (m : Reader Node A) (f : A → Reader Node B) (p q : ParamFile Node) (b : B)
      → (m >>= f) p ≡ ok (b, q)
      → (a : A) × (p' : ParamFile Node) × (m p ≡ ok (a, p')) × (f a p' ≡ ok (b, q))
  bind-ok m f p q b h = elim (Result-cases (m p)) [
    | inl ((a, p'), e) ↦ (a, p', e, rw (◌>>=◌, e) at h)
    | inr (x, e) ↦ let no = rw (◌>>=◌, e) at h in cc
  ]

-- Whatever the method returns satisfies `P`.
pub record Returns {Node A : Type 0} (P : A → Type 0) (m : Reader Node A) : Type 0 where
  pub returns : (p q : ParamFile Node) (a : A) → m p ≡ ok (a, q) → P a

module _ {Node A B : Type 0} where
  pub step :
      {Q : B → Type 0} (P : A → Type 0) (m : Reader Node A) (f : A → Reader Node B)
      → Returns P m
      → ((a : A) → P a → Returns Q (f a))
      → Returns Q (m >>= f)
  step P m f h k = record {
    returns = λ p q b e.
        let (a, p', e1, e2) = bind-ok m f p q b e in (k a (h.returns p p' a e1)).returns p' q b e2;
  }

module _ {Node A : Type 0} where
  pub lift-ok : (m : Throws A) (p q : ParamFile Node) (a : A) → lift m p ≡ ok (a, q) → m ≡ ok a
  lift-ok (ok b) p q a h = ground arith
  lift-ok (err x) p q a h = cc

  pub lifted : (m : Throws A) → Returns (λ a. m ≡ ok a) (lift {Node = Node} m)
  lifted m = record { returns = λ p q a e. lift-ok m p q a e }

  pub anything : (m : Reader Node A) → Returns (λ a. Unit) m
  anything m = record { returns = λ p q a e. tt }

  pub pure_lem : (P : A → Type 0) (a : A) → P a → Returns P (pure {Node = Node} a)
  pure_lem P a h = record { returns = λ p q b e. subst P (ground arith) h }
