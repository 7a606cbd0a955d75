-- ===== src/ParamFile/Keys.antt =====
-- Which keys count as used, and when a default value serves.
use ch_frb_l.Base.{
  Option-cases, add, ◌≡◌, refl, ◌≢◌, ◌↔◌, ◌⊎◌, inl, inr, Bool, true, false, not, List, [], ◌∷◌,
  none, some, ok, err, runtime_error, Text, text_eq, filter, contains, lookup, All, List-cases,
  arith, Bool-cases, msg, txt, ◌++◌,
}
use ch_frb_l.ParamFile.{
  ParamFile, Scalar, has_param, found, print, announce_default, as_scalar, read_scalar1,
  read_scalar2, read_scalar_or, unused_keys, check_for_unused_params, unused_message, wrong_type,
}

-- Every key of the list has been asked for.
abbrev pub AllRequested : {Node : Type 0} → ParamFile Node → List Text → Type 0
AllRequested p keys = All (λ k. contains k p.requested_keys ≡ true) keys

unused_none :
    (requested keys : List Text)
    → (filter (λ k. not (contains k requested)) keys ≡ [])
      ↔ All (λ k. contains k requested ≡ true) keys
unused_none requested [] = ((λ _. tt), (λ _. refl))
unused_none requested (k ∷ keys) = elim (Bool-cases (contains k requested)) [
  | inl used ↦
      let rest = unused_none requested keys in rw used ((λ h. (refl, rest.0 h)), (λ h. rest.1 h.1))
  | inr unused ↦ rw unused ((λ h. cc), (λ h. cc (h.0)))
]

module _ {Node : Type 0} where
  -- The outcome for a file with unused keys.
  abbrev pub Complains : Bool → ParamFile Node → Type 0
  Complains fatal p =
      ((fatal ≡ true) × ((x : Text) × (check_for_unused_params fatal p ≡ err (runtime_error x))))
      ⊎ ((fatal ≡ false)
          × ((q : ParamFile Node) × (check_for_unused_params fatal p ≡ ok (false, q))
              × (q.requested_keys ≡ p.requested_keys)))

  complaint :
      (fatal : Bool) (p : ParamFile Node) (k : Text) (keys : List Text)
      → unused_keys p ≡ k ∷ keys
      → Complains fatal p
  unfolding check_for_unused_params
  complaint true p k keys e =
      inl (
        refl,
        (p.filename ++ msg ": " ++ unused_message (k ∷ keys), rw (e, check_for_unused_params)),
      )
  complaint false p k keys e = inr (
    refl,
    (print (unused_message (k ∷ keys) ++ txt "\n") p, rw (e, check_for_unused_params), refl),
  )

  not_clean :
      (fatal : Bool) (p : ParamFile Node)
      → Complains fatal p
      → check_for_unused_params fatal p ≢ ok (true, p)
  not_clean fatal p (inl (_, (x, e))) h = cc
  not_clean fatal p (inr (_, (q, e, _))) h = ground arith

  -- If every key of the file has been asked for, the check answers `true` and changes nothing. If some
  -- key has not, it throws when it is fatal, and else answers `false`; the keys asked for stay.
  pub check_for_unused_params-cases :
      (fatal : Bool) (p : ParamFile Node)
      → (AllRequested p p.all_keys × (check_for_unused_params fatal p ≡ ok (true, p)))
        ⊎ ((¬ AllRequested p p.all_keys) × Complains fatal p)
  unfolding check_for_unused_params
  check_for_unused_params-cases fatal p =
      let used = unused_none p.requested_keys p.all_keys in
      elim (List-cases (unused_keys p)) [
        | inl e ↦ inl (used.0 (unfold unused_keys in e), rw (e, check_for_unused_params))
        | inr (k, keys, e) ↦ inr (
          λ all. let clean : unused_keys p ≡ [] = unfold unused_keys in used.1 all in cc (e, clean),
          complaint fatal p k keys e,
        )
      ]

  -- A parameter with a default: the default serves exactly when the file does not have the key. A key
  -- that the file has is noted as asked for, if its value has the type; if not, the read throws.
  pub read_scalar_or_cases :
      {A : Type 0} (t : Scalar Node A) (k : Text) (d : A) (p : ParamFile Node)
      → ((has_param k p ≡ false)
          × ((q : ParamFile Node) × (read_scalar_or t k d p ≡ ok (d, q))
              × (q.requested_keys ≡ p.requested_keys)))
        ⊎ ((has_param k p ≡ true)
            × ((a : A) × (q : ParamFile Node) × (as_scalar t (lookup k p.yaml) ≡ some a)
                × (read_scalar_or t k d p ≡ ok (a, q))
                × (q.requested_keys ≡ add k p.requested_keys)))
        ⊎ ((has_param k p ≡ true)
            × (as_scalar t (lookup k p.yaml) ≡ none)
            × ((x : Text) × (read_scalar_or t k d p ≡ err (runtime_error x))))
  unfolding read_scalar_or
  read_scalar_or_cases t k d p = elim (Bool-cases (has_param k p)) [
    | inr h ↦ inl (h, (announce_default k (t.stringify d) p, rw (h, read_scalar_or), ground arith))
    | inl h ↦ elim (Option-cases (as_scalar t (lookup k p.yaml))) [
      | inr (a, e) ↦ inr (
          inl (
            h,
            (
              a,
              found k (t.stringify a) p,
              e,
              rw (h, read_scalar_or) (rw (e, read_scalar2, read_scalar1)),
              ground arith,
            ),
          ))
      | inl e ↦ inr (
          inr (
            h,
            e,
            (
              p.filename ++ msg ": " ++ wrong_type t k,
              rw (h, read_scalar_or) (rw (e, read_scalar2, read_scalar1)),
            ),
          ))
    ]
  ]
