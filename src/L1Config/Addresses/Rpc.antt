-- ===== src/L1Config/Addresses/Rpc.antt =====
-- The entries of rpc_address and prometheus_address, with a port and without.
use ch_frb_l.Base.{
  ℕ, ◌+◌, ◌≡◌, ◌<◌, ◌^◌, ◌-◌, refl, ap, sym, ◌∙◌, false, List, [], ◌∷◌, ◌++◌, append_assoc, length,
  length-append, Text, some, none, take, drop, take-append, lookup, text_eq, Option-cases, inl, inr,
  arith,
}
use ch_frb_l.L1Config.Addresses.{size_sub, map_rpc, map_prometheus, find_slashes, rfind, find}
use ch_frb_l.L1Config.Addresses.Find.{
  has, find-append, rfind-append, find_slashes-append, drop-append, take_all, has-append,
}

-- A host, or the address of the interface with that name.
abbrev pub resolve : List (Text × Text) → Text → Text
resolve interfaces host = elim (lookup host interfaces) [ some val ↦ val | none ↦ host ]

-- "<scheme>//<host>:<port>"
abbrev pub with_port : Text → Text → Text → Text
with_port scheme host port = scheme ++ b'/' ∷ b'/' ∷ (host ++ b':' ∷ port)

-- What the host of an address becomes between two texts, or the address as it was.
abbrev between : List (Text × Text) → Text → Text → Text → Text → Text
between interfaces host a before after = elim (lookup host interfaces) [
  | none ↦ a
  | some val ↦ before ++ (val ++ after)
]

between-none :
    (interfaces : List (Text × Text)) (host a before after : Text)
    → lookup host interfaces ≡ none
    → between interfaces host a before after ≡ a
between-none interfaces host a before after e = rw (between, e) refl

between-some :
    (interfaces : List (Text × Text)) (host a before after val : Text)
    → lookup host interfaces ≡ some val
    → between interfaces host a before after ≡ before ++ (val ++ after)
between-some interfaces host a before after val e = rw (between, e) refl

searched :
    (interfaces : List (Text × Text)) (a host : Text) (proto port : ℕ)
    → find_slashes 0 a ≡ some proto
    → rfind b':' 0 a ≡ some port
    → take (size_sub port (proto + 2)) (drop (proto + 2) a) ≡ host
    → map_rpc interfaces a ≡ between interfaces host a (take (proto + 2) a) (drop port a)
unfolding map_rpc
searched interfaces a host proto port e f h = rw (map_rpc, e, f, h) refl

-- A call of map_rpc whose two searches have succeeded, the text around the host given.
replaced :
    (interfaces : List (Text × Text)) (a host before after : Text) (proto port : ℕ)
    → find_slashes 0 a ≡ some proto
    → rfind b':' 0 a ≡ some port
    → take (size_sub port (proto + 2)) (drop (proto + 2) a) ≡ host
    → take (proto + 2) a ≡ before
    → drop port a ≡ after
    → map_rpc interfaces a ≡ between interfaces host a before after
replaced interfaces a host before after proto port e f h b d =
    searched interfaces a host proto port e f h
    ∙ ap (λ t. between interfaces host a t (drop port a)) b
    ∙ ap (λ t. between interfaces host a before t) d

module _ (interfaces : List (Text × Text)) (scheme host port : Text)
    (no_slash : has b'/' scheme ≡ false) where
  -- The scheme with its two slashes.
  abbrev head : Text
  head = scheme ++ b'/' ∷ b'/' ∷ []

  head_append : (t : Text) → scheme ++ b'/' ∷ b'/' ∷ t ≡ head ++ t
  head_append t = sym (append_assoc scheme (b'/' ∷ b'/' ∷ []) t)

  length-head : length head ≡ length scheme + 2
  length-head = length-append scheme (b'/' ∷ b'/' ∷ [])

  take-head : (t : Text) → take (length scheme + 2) (scheme ++ b'/' ∷ b'/' ∷ t) ≡ head
  take-head t = rw (sym length-head, head_append t) (take-append head t)

  drop-head : (t : Text) → drop (length scheme + 2) (scheme ++ b'/' ∷ b'/' ∷ t) ≡ t
  drop-head t = rw (sym length-head, head_append t) (drop-append head t)

  find-head : (t : Text) → find_slashes 0 (scheme ++ b'/' ∷ b'/' ∷ t) ≡ some (length scheme)
  find-head t = find_slashes-append 0 scheme t no_slash ∙ ap some (omega arith)

  split_port : with_port scheme host port ≡ (head ++ host) ++ b':' ∷ port
  split_port = head_append (host ++ b':' ∷ port) ∙ sym (append_assoc head host (b':' ∷ port))

  length-split : length (head ++ host) ≡ length scheme + 2 + length host
  length-split = length-append head host ∙ ap (λ n. n + length host) length-head

  cut_host :
      length host < 2 ^ 64
      → take (size_sub (length scheme + 2 + length host) (length scheme + 2)) (host ++ b':' ∷ port)
        ≡ host
  cut_host short =
      let size : size_sub (length scheme + 2 + length host) (length scheme + 2) ≡ length host =
        omega arith in
      rw size (take-append host (b':' ∷ port))

  cut_port : drop (length scheme + 2 + length host) (with_port scheme host port) ≡ b':' ∷ port
  cut_port = rw (split_port, sym length-split) (drop-append (head ++ host) (b':' ∷ port))

  -- "<scheme>//<host>:<port>": the host is replaced if it names an interface, and nothing else changes.
  -- The scheme has no slash and the port no colon, and the host is shorter than 2^64 bytes.
  pub map_rpc-with_port :
      has b':' port ≡ false
      → length host < 2 ^ 64
      → map_rpc interfaces (with_port scheme host port)
        ≡ with_port scheme (resolve interfaces host) port
  map_rpc-with_port no_colon short =
      replaced interfaces (with_port scheme host port) host head (b':' ∷ port) (length scheme)
        (length scheme + 2 + length host) (find-head (host ++ b':' ∷ port))
        (rw split_port (
          rfind-append b':' 0 (head ++ host) port no_colon
          ∙ rw length-split (ap some (omega arith))))
        (rw (drop-head (host ++ b':' ∷ port)) (cut_host short)) (take-head (host ++ b':' ∷ port))
        cut_port
      ∙ elim (Option-cases (lookup host interfaces)) [
        | inl e ↦
            between-none interfaces host (with_port scheme host port) head (b':' ∷ port) e
            ∙ rw (resolve, e) refl
        | inr (val, e) ↦
            between-some interfaces host (with_port scheme host port) head (b':' ∷ port) val e
            ∙ sym (head_append (val ++ b':' ∷ port))
            ∙ rw (resolve, e) refl
      ]

-- "<scheme>://<host>" without a port: the search for the port's colon finds the one of the scheme.
abbrev pub without_port : Text → Text → Text
without_port scheme host = scheme ++ b':' ∷ b'/' ∷ b'/' ∷ host

module _ (interfaces : List (Text × Text)) (scheme host : Text) where
  colon : without_port scheme host ≡ (scheme ++ b':' ∷ []) ++ b'/' ∷ b'/' ∷ host
  colon = sym (append_assoc scheme (b':' ∷ []) (b'/' ∷ b'/' ∷ host))

  length-colon : length (scheme ++ b':' ∷ []) ≡ length scheme + 1
  length-colon = length-append scheme (b':' ∷ [])

  no_slash_colon : has b'/' scheme ≡ false → has b'/' (scheme ++ b':' ∷ []) ≡ false
  no_slash_colon h = has-append b'/' scheme (b':' ∷ []) ∙ rw h refl

  -- "<scheme>://<host>" without a port: if the host names an interface, the result is not the scheme and
  -- its address but "<scheme>://<address>://<host>". The scheme has no slash and the host no colon, and
  -- the host is shorter than 2^64 - 3 bytes.
  pub map_rpc-without_port :
      (val : Text)
      → has b'/' scheme ≡ false
      → has b':' host ≡ false
      → length host + 3 < 2 ^ 64
      → lookup host interfaces ≡ some val
      → map_rpc interfaces (without_port scheme host) ≡ without_port scheme (without_port val host)
  map_rpc-without_port val no_slash no_colon short e =
      let front = no_slash_colon no_slash in
      let s = scheme ++ b':' ∷ [] in
      let size : size_sub (length scheme) (length s + 2) ≡ 2 ^ 64 - 3 =
        omega (arith, length-colon) in
      let last : has b':' (b'/' ∷ b'/' ∷ host) ≡ false = rw no_colon refl in
      replaced interfaces (without_port scheme host) host (s ++ b'/' ∷ b'/' ∷ [])
        (b':' ∷ b'/' ∷ b'/' ∷ host) (length s) (length scheme)
        (rw colon (find-head interfaces s host [] front host))
        (rfind-append b':' 0 scheme (b'/' ∷ b'/' ∷ host) last ∙ ap some (omega arith))
        (rw (colon, drop-head interfaces s host [] front host, size)
          (take_all (2 ^ 64 - 3) host (omega arith)))
        (rw colon (take-head interfaces s host [] front host))
        (drop-append scheme (b':' ∷ b'/' ∷ b'/' ∷ host))
      ∙ between-some interfaces host (without_port scheme host) (s ++ b'/' ∷ b'/' ∷ [])
          (b':' ∷ b'/' ∷ b'/' ∷ host) val e
      ∙ append_assoc s (b'/' ∷ b'/' ∷ []) (val ++ b':' ∷ b'/' ∷ b'/' ∷ host)
      ∙ append_assoc scheme (b':' ∷ []) (b'/' ∷ b'/' ∷ (val ++ b':' ∷ b'/' ∷ b'/' ∷ host))

-- "<host>:<port>" of prometheus_address: the host is replaced if it names an interface. The host has no
-- colon; the port may.
map_prometheus-with_port :
    (interfaces : List (Text × Text)) (host port : Text)
    → has b':' host ≡ false
    → map_prometheus interfaces (host ++ b':' ∷ port) ≡ resolve interfaces host ++ b':' ∷ port
unfolding map_prometheus
map_prometheus-with_port interfaces host port h =
    let hit : find b':' 0 (host ++ b':' ∷ port) ≡ some (length host) =
      find-append b':' 0 host port h ∙ ap some (omega arith) in
    let same : take (length host) (host ++ b':' ∷ port) ≡ host = take-append host (b':' ∷ port) in
    elim (Option-cases (lookup host interfaces)) [
      | inl e ↦
          let miss : lookup (take (length host) (host ++ b':' ∷ port)) interfaces ≡ none =
            ap (λ t. lookup t interfaces) same ∙ e in
          rw (map_prometheus, hit, miss, resolve, e) refl
      | inr (val, e) ↦
          let found : lookup (take (length host) (host ++ b':' ∷ port)) interfaces ≡ some val =
            ap (λ t. lookup t interfaces) same ∙ e in
          rw (map_prometheus, hit, found, resolve, e)
            (ap (◌++◌ val) (drop-append host (b':' ∷ port)))
    ]
