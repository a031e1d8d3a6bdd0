-- ===== src/Sender/Interfaces/Local.antt =====
-- What the sender takes from the interfaces of the machine.
use premium.Base.{
  ℕ, ◌+◌, ◌≤◌, ◌<◌, List, [], ◌∷◌, ◌≡◌, ap, ◌∙◌, false, some, arith, lt→ltb, Bool-cases, inl, inr,
  if◌then◌else◌, length, set, length-set, All,
}
use premium.Text.{Bytes}
use premium.Rules.Spec.{ip_addr_length}
use premium.Manager.Nodes.{strcpy_at, store_all}
use premium.Sender.Interfaces.{
  SockAddr, null_addr, other_family, inet, IfAddrs, is_loopback, get_local_interfaces,
  primary_interface_size,
}

-- An interface has an address, and a name and a dotted form that fit their strings.
abbrev pub HasAddress : SockAddr → Type 0
HasAddress null_addr = ⊥
HasAddress other_family = Unit
HasAddress (inet ip) = length ip < ip_addr_length

abbrev pub IsInterface : IfAddrs → Type 0
IsInterface ifa = (length ifa.ifa_name < primary_interface_size) × HasAddress ifa.ifa_addr

abbrev pub taken_from : SockAddr → List Bytes → List Bytes
taken_from null_addr later = later
taken_from other_family later = later
taken_from (inet ip) later = ip ∷ later

-- The IPv4 addresses that are no loopback's, in order.
abbrev pub local_addresses : List IfAddrs → List Bytes
local_addresses [] = []
local_addresses (ifa ∷ rest) =
    let later = local_addresses rest in
    if is_loopback ifa.ifa_name then later else taken_from ifa.ifa_addr later

abbrev pub named_by : SockAddr → Bytes → Bytes → Bytes
named_by null_addr name primary = primary
named_by other_family name primary = primary
named_by (inet ip) name primary = name

-- The name of the last of these interfaces, or the one given if there is none.
abbrev pub last_interface : List IfAddrs → Bytes → Bytes
last_interface [] primary = primary
last_interface (ifa ∷ rest) primary =
    let skipped = last_interface rest primary in
    let here = last_interface rest (named_by ifa.ifa_addr ifa.ifa_name primary) in
    if is_loopback ifa.ifa_name then skipped else here

-- The result of get_local_interfaces for some addresses and a name.
abbrev Stores : List IfAddrs → Bytes → ℕ → List Bytes → Bytes → List Bytes → Type 0
Stores ifas primary i srcs name ips =
    get_local_interfaces ifas primary i srcs ≡ some (name, i + length ips, store_all srcs i ips)

-- One interface that is no loopback.
taken_step :
    (name : Bytes) (addr : SockAddr) (rest : List IfAddrs) (primary : Bytes) (i : ℕ)
    (srcs : List Bytes)
    → ((primary' : Bytes) (j : ℕ) (srcs' : List Bytes)
        → j + length (local_addresses rest) ≤ length srcs'
        → Stores rest primary' j srcs' (last_interface rest primary') (local_addresses rest))
    → is_loopback name ≡ false
    → length name < primary_interface_size
    → HasAddress addr
    → i + length (taken_from addr (local_addresses rest)) ≤ length srcs
    → Stores
        (record { ifa_name = name; ifa_addr = addr } ∷ rest)
        primary
        i
        srcs
        (last_interface rest (named_by addr name primary))
        (taken_from addr (local_addresses rest))
unfolding get_local_interfaces strcpy_at
taken_step name null_addr rest primary i srcs later no_lo short h fits = elim h [ ]
taken_step name other_family rest primary i srcs later no_lo short h fits =
    rw no_lo (later primary i srcs fits)
taken_step name (inet ip) rest primary i srcs later no_lo short h fits =
    rw
      (
        no_lo,
        lt→ltb i (length srcs) (omega arith),
        lt→ltb (length ip) ip_addr_length h,
        lt→ltb (length name) primary_interface_size short,
      )
      (later name (i + 1) (set srcs i ip) (omega (arith, length-set srcs i ip))
        ∙ ap
            (λ n. some (
              last_interface rest name,
              n,
              store_all (set srcs i ip) (i + 1) (local_addresses rest),
            ))
            (omega arith))

-- If every interface has an address, names and addresses fit their strings and the array has room,
-- get_local_interfaces stores the IPv4 addresses of all interfaces but the loopback in order, and
-- returns their number and the name of the last such interface.
pub get_local_interfaces-local_addresses :
    (ifas : List IfAddrs) (primary : Bytes) (i : ℕ) (srcs : List Bytes)
    → All IsInterface ifas
    → i + length (local_addresses ifas) ≤ length srcs
    → get_local_interfaces ifas primary i srcs
      ≡ some (
        last_interface ifas primary,
        i + length (local_addresses ifas),
        store_all srcs i (local_addresses ifas),
      )
unfolding get_local_interfaces strcpy_at
get_local_interfaces-local_addresses [] primary i srcs ok fits =
    ap (λ n. some (primary, n, srcs)) (omega arith)
get_local_interfaces-local_addresses (ifa ∷ rest) primary i srcs (h, ok) fits =
    elim (Bool-cases (is_loopback ifa.ifa_name)) [
      | inl lo ↦
          let room : i + length (local_addresses rest) ≤ length srcs = rw lo at fits in
          rw lo (get_local_interfaces-local_addresses rest primary i srcs ok room)
      | inr no_lo ↦
          let room : i + length (taken_from ifa.ifa_addr (local_addresses rest)) ≤ length srcs =
            rw no_lo at fits in
          rw no_lo (
            rw no_lo at (
              taken_step ifa.ifa_name ifa.ifa_addr rest primary i srcs
                (λ p j s r. get_local_interfaces-local_addresses rest p j s ok r) no_lo h.0 h.1
                room))
    ]
