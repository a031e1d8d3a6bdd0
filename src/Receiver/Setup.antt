-- ===== src/Receiver/Setup.antt =====
-- What setup_receiver does before it accepts, and what a sender learns of it through the manager.
use premium.Base.{
  ℕ, ◌+◌, ◌≤◌, ◌<◌, List, [], ◌∷◌, ◌++◌, ◌≡◌, refl, sym, ap, ◌∙◌, false, some, arith, lt→ltb,
  Bool-cases, inl, inr, length, length-append, All, append_assoc, append-nil,
}
use premium.Text.{Bytes, codes}
use premium.Rules.Spec.{ip_addr_length}
use premium.Manager.Buffer.{Arrival, received}
use premium.Manager.Register.{interface_list}
use premium.Manager.Nodes.{IsAddress, IsLabel, store_all}
use premium.Manager.Receiver.{get_receiver_info_from_manager, size_question, address_question}
use premium.Manager.Receiver.Lines.{size_line, address_line}
use premium.Manager.Receiver.RoundTrip.{get_receiver_info-interface_list}
use premium.Sender.State.{darshana_server_port}
use premium.Sender.Interfaces.{SockAddr, null_addr, other_family, inet, IfAddrs, is_loopback}
use premium.Sender.Interfaces.Local.{HasAddress, taken_from, local_addresses}
use premium.Receiver.{
  server_command_size, get_primary, get_local_interfaces2, run_darshana_server, send_to_manager,
  create_darshana_server, listen_on, setup_receiver,
}
use premium.Receiver.Registration.{lines, device_tuple, IsShort, register_to_manager-lines}

abbrev pub HasAddresses : List IfAddrs → Type 0
HasAddresses = All (λ ifa. HasAddress ifa.ifa_addr)

abbrev pub first_of : Bytes → List Bytes → Bytes
first_of primary [] = primary
first_of primary (ip ∷ ips) = ip

abbrev Collects : List IfAddrs → List Bytes → List Bytes → Type 0
Collects ifas srcs ips = get_local_interfaces2 ifas srcs ≡ some (srcs ++ ips)

collect_step :
    (name : Bytes) (addr : SockAddr) (rest : List IfAddrs) (srcs : List Bytes)
    → ((srcs' : List Bytes)
        → length srcs' + length (local_addresses rest) ≤ ip_addr_length
        → Collects rest srcs' (local_addresses rest))
    → is_loopback name ≡ false
    → HasAddress addr
    → length srcs + length (taken_from addr (local_addresses rest)) ≤ ip_addr_length
    → Collects
        (record { ifa_name = name; ifa_addr = addr } ∷ rest)
        srcs
        (taken_from addr (local_addresses rest))
unfolding get_local_interfaces2
collect_step name null_addr rest srcs later no_lo h room = elim h [ ]
collect_step name other_family rest srcs later no_lo h room = rw no_lo (later srcs room)
collect_step name (inet ip) rest srcs later no_lo h room =
    rw (no_lo, lt→ltb (length srcs) ip_addr_length (omega arith))
      (later (srcs ++ ip ∷ []) (omega (arith, length-append srcs (ip ∷ [])))
        ∙ ap some (append_assoc srcs (ip ∷ []) (local_addresses rest)))

get_local_interfaces2-local_addresses :
    (ifas : List IfAddrs) (srcs : List Bytes)
    → HasAddresses ifas
    → length srcs + length (local_addresses ifas) ≤ ip_addr_length
    → Collects ifas srcs (local_addresses ifas)
unfolding get_local_interfaces2
get_local_interfaces2-local_addresses [] srcs h room = ap some (sym (append-nil srcs))
get_local_interfaces2-local_addresses (ifa ∷ rest) srcs (h, hs) room =
    elim (Bool-cases (is_loopback ifa.ifa_name)) [
      | inl lo ↦
          let less : length srcs + length (local_addresses rest) ≤ ip_addr_length = rw lo at room in
          rw lo (get_local_interfaces2-local_addresses rest srcs hs less)
      | inr no_lo ↦
          let less : length srcs + length (taken_from ifa.ifa_addr (local_addresses rest))
              ≤ ip_addr_length =
            rw no_lo at room in
          rw no_lo (
            rw no_lo at (
              collect_step ifa.ifa_name ifa.ifa_addr rest srcs
                (λ s r. get_local_interfaces2-local_addresses rest s hs r) no_lo h less))
    ]

primary_step :
    (name : Bytes) (addr : SockAddr) (rest : List IfAddrs) (primary : Bytes)
    → get_primary rest primary ≡ some (first_of primary (local_addresses rest))
    → is_loopback name ≡ false
    → HasAddress addr
    → get_primary (record { ifa_name = name; ifa_addr = addr } ∷ rest) primary
      ≡ some (first_of primary (taken_from addr (local_addresses rest)))
unfolding get_primary
primary_step name null_addr rest primary later no_lo h = elim h [ ]
primary_step name other_family rest primary later no_lo h = rw no_lo later
primary_step name (inet ip) rest primary later no_lo h =
    rw (no_lo, lt→ltb (length ip) ip_addr_length h) refl

get_primary-local_addresses :
    (ifas : List IfAddrs) (primary : Bytes)
    → HasAddresses ifas
    → get_primary ifas primary ≡ some (first_of primary (local_addresses ifas))
unfolding get_primary
get_primary-local_addresses [] primary h = refl
get_primary-local_addresses (ifa ∷ rest) primary (h, hs) =
    let later = get_primary-local_addresses rest primary hs in
    elim (Bool-cases (is_loopback ifa.ifa_name)) [
      | inl lo ↦ rw lo later
      | inr no_lo ↦
          rw no_lo (rw no_lo at (primary_step ifa.ifa_name ifa.ifa_addr rest primary later no_lo h))
    ]

-- A receiver on a machine with up to 13 IPv4 addresses besides the loopback, all of whose interfaces
-- have an address, registers all of them in order without a STUN server, under the first of them,
-- runs Darshana's server on the first, with a command that fits its buffer, and listens on it. The
-- addresses are in dotted form.
pub setup_receiver-local_addresses :
    (stun : Bytes → Bytes) (ifap : List IfAddrs) (receiver_port : ℕ) (primary_ip ip : Bytes)
    (ips : List Bytes)
    → HasAddresses ifap
    → local_addresses ifap ≡ ip ∷ ips
    → length (ip ∷ ips) ≤ 13
    → All IsAddress (ip ∷ ips)
    → All IsShort (ip ∷ ips)
    → (commands : Bytes) × (setup_receiver stun ifap receiver_port false primary_ip
        ≡ some (
            send_to_manager commands
            ∷ create_darshana_server (run_darshana_server ip darshana_server_port)
            ∷ listen_on ip receiver_port
            ∷ []))
      × (lines commands
          ≡ (codes "inp " ++ device_tuple ip (length (ip ∷ ips)))
            ∷ (codes "inp " ++ interface_list (ip ∷ ips))
            ∷ (codes "out " ++ device_tuple ip (length (ip ∷ ips)))
            ∷ (codes "out " ++ interface_list (ip ∷ ips))
            ∷ [])
      × (length (run_darshana_server ip darshana_server_port) < server_command_size)
unfolding setup_receiver run_darshana_server
setup_receiver-local_addresses stun ifap receiver_port primary_ip ip ips h local few ok short =
    let (commands, registered, read) = register_to_manager-lines ip ips ok short few in
    let primary =
      get_primary-local_addresses ifap primary_ip h
      ∙ ap (λ l. some (first_of primary_ip l)) local in
    let taken =
      get_local_interfaces2-local_addresses ifap [] h (omega (arith, ap length local))
      ∙ ap some local in
    (
      commands,
      rw (primary, taken, lt→ltb (length (ip ∷ ips)) ip_addr_length (omega arith), registered) refl,
      read,
      simp length-append (omega (arith, short.0)),
    )

-- A tuple as the proxy prints it behind a label.
abbrev pub tuple_line : Bytes → Bytes → Bytes
tuple_line label t = label ++ codes "<" ++ (t ++ codes ">\n")

tuple_line-size_line :
    (label ip : Bytes) (n : ℕ) → tuple_line label (device_tuple ip n) ≡ size_line label ip n
tuple_line-size_line label ip n = simp append_assoc refl

tuple_line-address_line :
    (label : Bytes) (ips : List Bytes)
    → tuple_line label (interface_list ips) ≡ address_line label ips
tuple_line-address_line label ips = simp append_assoc refl

-- A sender that asks learns what the proxy was told.
told :
    (dsts : List Bytes) (label ip : Bytes) (ips : List Bytes) (later : List Arrival)
    → IsLabel label
    → All IsAddress (ip ∷ ips)
    → length (ip ∷ ips) ≤ length dsts
    → length dsts ≤ 20
    → get_receiver_info_from_manager dsts ip (
        received (codes "OK\n")
        ∷ received (tuple_line label (device_tuple ip (length (ip ∷ ips))))
        ∷ received (codes "OK\n")
        ∷ received (tuple_line label (interface_list (ip ∷ ips)))
        ∷ later)
      ≡ some (
        length (ip ∷ ips),
        store_all dsts 0 (ip ∷ ips),
        size_question ip ∷ address_question ip (length (ip ∷ ips)) ∷ [],
      )
told dsts label ip ips later hl ok fits few =
    let n = length (ip ∷ ips) in
    let t = tuple_line label (device_tuple ip n) in
    let l = tuple_line label (interface_list (ip ∷ ips)) in
    let answers : Bytes → Bytes → List Arrival =
      λ a b. received (codes "OK\n") ∷ received a ∷ received (codes "OK\n") ∷ received b ∷ later in
    ap (get_receiver_info_from_manager dsts ip) (
      ap (λ a. answers a l) (tuple_line-size_line label ip n)
      ∙ ap (answers (size_line label ip n)) (tuple_line-address_line label (ip ∷ ips)))
    ∙ get_receiver_info-interface_list dsts label ip ip ips later hl ok.0 ok fits few

-- The tuples that a registration puts out, in order.
abbrev pub PutsOut : List Bytes → Bytes → Bytes → Type 0
PutsOut commands device addresses =
    commands
    ≡ (codes "inp " ++ device)
      ∷ (codes "inp " ++ addresses)
      ∷ (codes "out " ++ device)
      ∷ (codes "out " ++ addresses)
      ∷ []

-- A receiver without a STUN server, all of whose interfaces have an address, with up to 13 addresses
-- of up to 15 bytes in dotted form besides the loopback's, is set up and puts two tuples out at the
-- proxy, in place of any that are the same. A sender with room for the addresses that asks for the
-- receiver by the first of them learns exactly the addresses of the receiver's interfaces, in order, if
-- the proxy answers OK and one of these tuples for each of its two questions, each in a recv of its own
-- and each tuple behind the same label, which is not empty and holds no comma, bracket, NUL or letter
-- O.
pub receiver_addresses :
    (stun : Bytes → Bytes) (ifap : List IfAddrs) (receiver_port : ℕ) (primary_ip : Bytes)
    (dsts : List Bytes) (label ip : Bytes) (ips : List Bytes) (later : List Arrival)
    → HasAddresses ifap
    → local_addresses ifap ≡ ip ∷ ips
    → length (ip ∷ ips) ≤ 13
    → All IsAddress (ip ∷ ips)
    → All IsShort (ip ∷ ips)
    → IsLabel label
    → length (ip ∷ ips) ≤ length dsts
    → length dsts ≤ 20
    → (commands : Bytes) × (device : Bytes) × (addresses : Bytes) × (setup_receiver stun ifap
          receiver_port false primary_ip
        ≡ some (
            send_to_manager commands
            ∷ create_darshana_server (run_darshana_server ip darshana_server_port)
            ∷ listen_on ip receiver_port
            ∷ []))
      × PutsOut (lines commands) device addresses
      × (get_receiver_info_from_manager dsts ip (
            received (codes "OK\n")
            ∷ received (tuple_line label device)
            ∷ received (codes "OK\n")
            ∷ received (tuple_line label addresses)
            ∷ later)
          ≡ some (
            length (local_addresses ifap),
            store_all dsts 0 (local_addresses ifap),
            size_question ip ∷ address_question ip (length (local_addresses ifap)) ∷ [],
          ))
receiver_addresses stun ifap receiver_port primary_ip dsts label ip ips later have local few ok
      short hl fits small =
    let (commands, ran, registered, sized) =
      setup_receiver-local_addresses stun ifap receiver_port primary_ip ip ips have local few ok
        short in
    (
      commands,
      device_tuple ip (length (ip ∷ ips)),
      interface_list (ip ∷ ips),
      ran,
      registered,
      told dsts label ip ips later hl ok fits small
          ∙ sym (
              ap
                (λ l. some (
                  length l,
                  store_all dsts 0 l,
                  size_question ip ∷ address_question ip (length l) ∷ [],
                ))
                local),
    )
