-- ===== src/Sender/Interfaces.antt =====
-- The sender's interfaces: SCMultipath/utils/virtual_int_utils.c and setup_machete_info of
-- SCMultipath/sending_handler.c. What getifaddrs returns and which addresses answer a ping are
-- arguments. `none` is a crash, a write past a buffer, or a loop that does not end within its fuel.
pub mod Local
pub mod Loop
pub mod Alias
use premium.Base.{
  ℕ, zero, suc, ◌+◌, ◌*◌, List, [], ◌∷◌, ◌++◌, Bool, true, false, ◌&&◌, not, Option, none, some,
  ltb, ◌==◌, if◌then◌else◌, ◌>>=◌, length, set,
}
use premium.Text.{Bytes, codes, str_eq, strcat_all}
use premium.Text.Token.{next_token}
use premium.Text.Decimal.{decimal, atoi}
use premium.Manager.Nodes.{strcpy_at}
use premium.Manager.Register.{within}

-- ifa_addr: NULL, an IPv4 address in dotted form, or one of another family.
pub data SockAddr : Type 0 where
  null_addr other_family : SockAddr
  inet : Bytes → SockAddr

pub record IfAddrs : Type 0 where
  pub ifa_name : Bytes
  pub ifa_addr : SockAddr

-- The local interfaces that are no loopback; `primary_interface` has ten bytes.
abbrev pub primary_interface_size : ℕ
primary_interface_size = 10

abbrev pub is_loopback : Bytes → Bool
is_loopback name = if str_eq (codes "lo") name then true else str_eq (codes "lo0") name

-- The loop over the interfaces: the name of the last one that is taken and the addresses.
unfoldable pub get_local_interfaces :
    List IfAddrs → Bytes → ℕ → List Bytes → Option (Bytes × ℕ × List Bytes)
unfolding strcpy_at
get_local_interfaces [] primary i srcs = some (primary, i, srcs)
get_local_interfaces (ifa ∷ rest) primary i srcs =
    let skip = get_local_interfaces rest primary i srcs in
    let take_it = λ (ip : Bytes). (do
      srcs' ← strcpy_at srcs i ip
      if ltb (length ifa.ifa_name) primary_interface_size
          then get_local_interfaces rest ifa.ifa_name (i + 1) srcs'
          else none) in
    if is_loopback ifa.ifa_name
    then skip
    else elim ifa.ifa_addr [ null_addr ↦ none | other_family ↦ skip | inet ip ↦ take_it ip ]

-- `strchr(s, c) != NULL`
unfoldable pub strchr : Bytes → ℕ → Bool
strchr [] c = false
strchr (d ∷ s) c = if d == c then true else strchr s c

-- The last part of the address that create_virtual_ifconfig tries next, in a string of four bytes.
abbrev pub part_size : ℕ
part_size = 4

unfoldable pub free_address :
    (Bytes → Bool) → ℕ → ℕ → Bytes → Bytes → Bytes → Bytes → Option (Bytes × Bytes)
free_address answers zero addition pt1 pt2 pt3 pt4 = none
free_address answers (suc fuel) addition pt1 pt2 pt3 pt4 =
    let pt4' = decimal (atoi pt4 + addition) in
    let addr = strcat_all (pt1 ∷ codes "." ∷ pt2 ∷ codes "." ∷ pt3 ∷ codes "." ∷ pt4' ∷ []) in
    let rest = free_address answers fuel addition pt1 pt2 pt3 pt4' in
    if ltb (length pt4') part_size then (if answers addr then rest else some (pt4', addr)) else none

abbrev pub dot : ℕ
dot = b'.'

-- create_virtual_ifconfig on the address of the primary interface: the command that it runs.
unfoldable pub create_virtual_ifconfig : (Bytes → Bool) → ℕ → ℕ → Bytes → Bytes → Option Bytes
unfolding free_address
create_virtual_ifconfig answers fuel addition primary_interface addr = do
  let (t1, r1) = next_token dot addr
  pt1 ← t1
  let (t2, r2) = next_token dot r1
  pt2 ← t2
  let (t3, r3) = next_token dot r2
  pt3 ← t3
  let (t4, r4) = next_token dot r3
  pt4 ← t4
  (pt, new_addr) ← free_address answers fuel addition pt1 pt2 pt3 pt4
  some (
      strcat_all
        (codes "ifconfig " ∷ primary_interface ∷ codes ":" ∷ pt ∷ codes " " ∷ new_addr ∷ []))

-- `malloc(sizeof(char))`, `char interface[4]` and `char command[100]`
abbrev number_size : ℕ
number_size = 1

abbrev mpc_size : ℕ
mpc_size = 4

abbrev link_command_size : ℕ
link_command_size = 100

-- The commands of create_virtual_interface, at a time that is not negative as an int.
unfoldable pub create_virtual_interface : ℕ → Bytes → Option (List Bytes)
create_virtual_interface time primary_interface = do
  number ← within number_size (decimal time)
  interface ← within mpc_size (codes "mpc" ++ number)
  add ← within link_command_size (
      strcat_all (
        codes "ip link add name "
        ∷ interface
        ∷ codes " link "
        ∷ primary_interface
        ∷ codes " type macvlan"
        ∷ []))
  up ←
      within link_command_size
        (strcat_all (codes "ip link set dev " ∷ interface ∷ codes " up" ∷ []))
  dhclient ← within link_command_size (strcat_all (codes "dhclient " ∷ interface ∷ []))
  some (add ∷ up ∷ dhclient ∷ [])

-- What the creation of the n-th source meets: what getifaddrs returns, which addresses answer a ping,
-- the time, what the stack holds where an address is looked for, and the fuel of the search.
pub record Machine : Type 0 where
  pub interfaces : ℕ → List IfAddrs
  pub answers : ℕ → Bytes → Bool
  pub time : ℕ → ℕ
  pub stack : ℕ → Bytes
  pub alias_fuel : ℕ

-- The first IPv4 address of the primary interface, or what the stack holds.
unfoldable pub primary_addr : List IfAddrs → Bytes → Bytes → Option Bytes
primary_addr [] primary_interface addr = some addr
primary_addr (ifa ∷ rest) primary_interface addr =
    let later = primary_addr rest primary_interface addr in
    if str_eq primary_interface ifa.ifa_name
    then elim ifa.ifa_addr [ null_addr ↦ none | other_family ↦ later | inet ip ↦ some ip ]
    else later

-- One more source: the commands that are run for it.
unfoldable pub create : Machine → Bytes → ℕ → Option (List Bytes)
unfolding create_virtual_ifconfig create_virtual_interface
create machine primary num_srcs =
    let alias = (do
      addr ← primary_addr (machine.interfaces num_srcs) primary (machine.stack num_srcs)
      command ←
          create_virtual_ifconfig (machine.answers num_srcs) machine.alias_fuel num_srcs primary
            addr
      some (command ∷ [])) in
    if strchr primary b'e' then alias else create_virtual_interface (machine.time num_srcs) primary

-- The loop that creates sources: how many there are then, and the commands.
unfoldable pub create_sources :
    Machine → ℕ → Bytes → ℕ → ℕ → ℕ → List Bytes → Option (ℕ × List Bytes)
unfolding create
create_sources machine zero primary num_srcs num_dsts num_hops made = none
create_sources machine (suc fuel) primary num_srcs num_dsts num_hops made =
    let rest = (do
      commands ← create machine primary num_srcs
      create_sources machine fuel primary (num_srcs + 1) num_dsts num_hops (made ++ commands)) in
    if ltb (num_srcs * num_dsts) num_hops then rest else some (num_srcs, made)

-- The interfaces before and after new sources are created; primary_interface and srcs as they were
-- reserved. What the commands do to the interfaces is in what getifaddrs returns afterwards.
unfoldable pub setup_machete_info :
    Machine
    → ℕ
    → List IfAddrs
    → List IfAddrs
    → ℕ
    → ℕ
    → Bytes
    → List Bytes
    → Option (List Bytes × Bytes × ℕ × List Bytes)
unfolding get_local_interfaces create_sources
setup_machete_info machine fuel before after num_dsts num_hops primary srcs = do
  (primary', num_srcs, srcs') ← get_local_interfaces before primary 0 srcs
  (n, made) ← create_sources machine fuel primary' num_srcs num_dsts num_hops []
  (primary'', num_srcs', srcs'') ← get_local_interfaces after primary' 0 srcs'
  some (made, primary'', num_srcs', srcs'')

-- The commands that clean_virtual_interfaces runs: for every IPv4 interface with an m in its name.
unfoldable pub clean_virtual_interfaces : List IfAddrs → Option (List Bytes)
unfolding strchr
clean_virtual_interfaces [] = some []
clean_virtual_interfaces (ifa ∷ rest) =
    let later = clean_virtual_interfaces rest in
    let down =
      strcat_all (codes "ifconfig " ∷ ifa.ifa_name ∷ codes " down" ∷ [])
      ∷ strcat_all (codes "ip link delete dev " ∷ ifa.ifa_name ∷ [])
      ∷ [] in
    let here = if strchr ifa.ifa_name b'm' then down else [] in
    if is_loopback ifa.ifa_name then later else elim ifa.ifa_addr [
      | null_addr ↦ none
      | other_family ↦ later
      | inet ip ↦ (do cs ← later; some (here ++ cs))
    ]
