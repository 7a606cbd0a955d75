-- ===== src/L1Config/Addresses/Ip.antt =====
-- What becomes of the entries of `ipaddr`.
use ch_frb_l.Base.{
  ℕ, suc, ◌≡◌, refl, ap, ◌⊎◌, inl, inr, Bool, true, false, List, [], ◌∷◌, some, none, ok, err, ◌||◌,
  runtime_error, Text, text_eq, lookup, insert, length, get_elem?, All, Option-cases, Bool-cases,
  if◌then◌else◌, undefined,
}
use ch_frb_l.L1Config.Addresses.{
  Address, null, other_family, inet, bad_ipaddr, read_interfaces, map_ipaddr, map_ipaddrs,
}

module _ (inet_aton : Text → Bool) (interfaces : List (Text × Text)) where
  -- An entry that can be mapped: a dotted address, or the name of an interface.
  abbrev pub resolves : Text → Bool
  resolves a = inet_aton a || elim (lookup a interfaces) [ none ↦ false | some val ↦ true ]

  -- What it is mapped to.
  abbrev pub resolved : Text → Text
  resolved a = if inet_aton a then a else elim (lookup a interfaces) [ none ↦ a | some val ↦ val ]

  abbrev pub resolved_all : List Text → List Text
  resolved_all [] = []
  resolved_all (a ∷ ipaddr) = resolved a ∷ resolved_all ipaddr

  map_ipaddr-cases :
      (a : Text)
      → ((resolves a ≡ true) × (map_ipaddr inet_aton interfaces a ≡ ok (resolved a)))
        ⊎ ((resolves a ≡ false)
            × ((x : Text) × (map_ipaddr inet_aton interfaces a ≡ err (runtime_error x))))
  unfolding map_ipaddr
  map_ipaddr-cases a = elim (Bool-cases (inet_aton a)) [
    | inl h ↦ inl (rw h refl, rw (map_ipaddr, h) refl)
    | inr h ↦ elim (Option-cases (lookup a interfaces)) [
      | inl e ↦ inr (rw (h, e) refl, (bad_ipaddr a, rw (map_ipaddr, h, e) refl))
      | inr (val, e) ↦ inl (rw (h, e) refl, rw (map_ipaddr, h, e) refl)
    ]
  ]

  -- The mapping of the addresses succeeds exactly when every entry is a dotted address or the name of an
  -- interface: a dotted address stays, a name becomes its address. If an entry is neither, it throws.
  pub map_ipaddrs-cases :
      (ipaddr : List Text)
      → (All (λ a. resolves a ≡ true) ipaddr
          × (map_ipaddrs inet_aton interfaces ipaddr ≡ ok (resolved_all ipaddr)))
        ⊎ (((i : ℕ) × (a : Text) × (get_elem? ipaddr i ≡ some a) × (resolves a ≡ false))
            × ((x : Text) × (map_ipaddrs inet_aton interfaces ipaddr ≡ err (runtime_error x))))
  unfolding map_ipaddrs
  map_ipaddrs-cases [] = inl (tt, refl)
  map_ipaddrs-cases (a ∷ ipaddr) = elim (map_ipaddr-cases a) [
    | inr (h, (x, e)) ↦ inr ((0, a, refl, h), (x, rw (map_ipaddrs, e) refl))
    | inl (h, e) ↦ elim (map_ipaddrs-cases ipaddr) [
      | inl (all, f) ↦ inl ((h, all), rw (map_ipaddrs, e, f) refl)
      | inr ((i, b, at, k), (x, f)) ↦ inr ((suc i, b, at, k), (x, rw (map_ipaddrs, e, f) refl))
    ]
  ]

  pub length-map_ipaddrs : (ipaddr : List Text) → length (resolved_all ipaddr) ≡ length ipaddr
  length-map_ipaddrs [] = refl
  length-map_ipaddrs (a ∷ ipaddr) = ap suc (length-map_ipaddrs ipaddr)

abbrev pub any_null : List (Text × Address) → Bool
any_null [] = false
any_null ((name, null) ∷ ifaces) = true
any_null ((name, other_family) ∷ ifaces) = any_null ifaces
any_null ((name, inet a) ∷ ifaces) = any_null ifaces

-- The dotted addresses of the interfaces, the last one of each name.
abbrev pub inet_of : List (Text × Address) → List (Text × Text) → List (Text × Text)
inet_of [] interfaces = interfaces
inet_of ((name, null) ∷ ifaces) interfaces = inet_of ifaces interfaces
inet_of ((name, other_family) ∷ ifaces) interfaces = inet_of ifaces interfaces
inet_of ((name, inet a) ∷ ifaces) interfaces = inet_of ifaces (insert name a interfaces)

-- The list of interfaces is read without undefined behaviour exactly when no interface has a null
-- address: with one, wherever it stands, a null pointer is read.
pub read_interfaces_lem :
    (ifaces : List (Text × Address)) (interfaces : List (Text × Text))
    → read_interfaces ifaces interfaces
      ≡ (if any_null ifaces then err undefined else ok (inet_of ifaces interfaces))
unfolding read_interfaces
read_interfaces_lem [] interfaces = refl
read_interfaces_lem ((name, null) ∷ ifaces) interfaces = refl
read_interfaces_lem ((name, other_family) ∷ ifaces) interfaces =
    read_interfaces_lem ifaces interfaces
read_interfaces_lem ((name, inet a) ∷ ifaces) interfaces =
    read_interfaces_lem ifaces (insert name a interfaces)
