-- ===== src/L1Config/Addresses.antt =====
-- The names of network interfaces in the addresses of the configuration, and their replacement by IP
-- addresses. What getifaddrs() and inet_ntoa() return, and the test of inet_aton(), are parameters;
-- getifaddrs() documents that the address of an interface may be a null pointer.
pub mod Find
pub mod Rpc
pub mod Ip
use ch_frb_l.Base.{
  ℕ, suc, ◌+◌, ◌-◌, ◌%◌, ◌^◌, Bool, true, false, List, [], ◌∷◌, ◌++◌, Option, none, some, ok, err,
  Throws, undefined, runtime_error, ◌>>=◌, if◌then◌else◌, msg, Text, text_eq, nat_beq, take, drop,
  lookup, insert,
}

-- The address of an interface: a null pointer, of another family than AF_INET, or the dotted text.
pub data Address : Type 0 where
  null other_family : Address
  inet : Text → Address

-- The map from interface names to dotted addresses; reading through a null pointer is undefined.
unfoldable pub read_interfaces :
    List (Text × Address) → List (Text × Text) → Throws (List (Text × Text))
read_interfaces [] interfaces = ok interfaces
read_interfaces ((name, null) ∷ ifaces) interfaces = err undefined
read_interfaces ((name, other_family) ∷ ifaces) interfaces = read_interfaces ifaces interfaces
read_interfaces ((name, inet a) ∷ ifaces) interfaces =
    read_interfaces ifaces (insert name a interfaces)

pub bad_ipaddr : Text → Text
bad_ipaddr a =
    msg "Config file ipaddr entry \""
    ++ a
    ++ msg "\" was not dotted IP address and was not one of the known network interfaces"

unfoldable pub map_ipaddr : (Text → Bool) → List (Text × Text) → Text → Throws Text
unfolding bad_ipaddr
map_ipaddr inet_aton interfaces a = if inet_aton a then ok a else elim (lookup a interfaces) [
  | none ↦ err (runtime_error (bad_ipaddr a))
  | some val ↦ ok val
]

unfoldable pub map_ipaddrs : (Text → Bool) → List (Text × Text) → List Text → Throws (List Text)
map_ipaddrs inet_aton interfaces [] = ok []
map_ipaddrs inet_aton interfaces (a ∷ ipaddr) = do
  b ← map_ipaddr inet_aton interfaces a
  rest ← map_ipaddrs inet_aton interfaces ipaddr
  ok (b ∷ rest)

-- find() and rfind() of a byte, and find() of two slashes; `i` is the index of the text's start.
unfoldable pub find : ℕ → ℕ → Text → Option ℕ
find x i [] = none
find x i (c ∷ t) = if nat_beq c x then some i else find x (suc i) t

unfoldable pub rfind : ℕ → ℕ → Text → Option ℕ
rfind x i [] = none
rfind x i (c ∷ t) = elim (rfind x (suc i) t) [
  | some j ↦ some j
  | none ↦ if nat_beq c x then some i else none
]

unfoldable pub find_slashes : ℕ → Text → Option ℕ
find_slashes i [] = none
find_slashes i (c ∷ []) = none
find_slashes i (c ∷ d ∷ t) =
    let rest = find_slashes (suc i) (d ∷ t) in
    if nat_beq c b'/' then (if nat_beq d b'/' then some i else rest) else rest

-- The difference of two values of type size_t.
abbrev pub size_sub : ℕ → ℕ → ℕ
size_sub a b = (2 ^ 64 + a - b) % 2 ^ 64

-- An entry of rpc_address, "tcp://eno2:5555".
unfoldable pub map_rpc : List (Text × Text) → Text → Text
map_rpc interfaces a = elim (find_slashes 0 a) [
  | none ↦ a
  | some proto ↦ elim (rfind b':' 0 a) [
    | none ↦ a
    | some port ↦ elim (lookup (take (size_sub port (proto + 2)) (drop (proto + 2) a)) interfaces) [
      | none ↦ a
      | some val ↦ take (proto + 2) a ++ (val ++ drop port a)
    ]
  ]
]

-- An entry of prometheus_address, "eno2:8888" or "8888".
unfoldable pub map_prometheus : List (Text × Text) → Text → Text
map_prometheus interfaces a = elim (find b':' 0 a) [
  | none ↦ a
  | some port ↦ elim (lookup (take port a) interfaces) [ none ↦ a | some val ↦ val ++ drop port a ]
]
