-- ===== src/Tests/Receiver.antt =====
-- A receiver with a loopback and two addresses.
use premium.Base.{List, [], ◌∷◌, ◌≡◌, refl, false, some, arith, replicate, length}
use premium.Text.{Bytes, codes, str_eq}
use premium.Manager.Buffer.{received}
use premium.Manager.Nodes.{IsLabel, store_all}
use premium.Manager.Receiver.{get_receiver_info_from_manager, size_question, address_question}
use premium.Sender.State.{max_flows}
use premium.Sender.Interfaces.{IfAddrs, inet, other_family}
use premium.Sender.Interfaces.Local.{local_addresses}
use premium.Sender.State.{darshana_server_port}
use premium.Receiver.{
  setup_receiver, send_to_manager, create_darshana_server, run_darshana_server, listen_on,
}
use premium.Receiver.Registration.{lines}
use premium.Receiver.Setup.{HasAddresses, tuple_line, PutsOut, receiver_addresses}
use premium.Tests.{relay_a, relay_b, relay_a-IsAddress, relay_b-IsAddress}

abbrev pub interfaces : List IfAddrs
interfaces =
    record { ifa_name = codes "lo"; ifa_addr = inet (codes "127.0.0.1") }
    ∷ record { ifa_name = codes "enp0s31f6"; ifa_addr = other_family }
    ∷ record { ifa_name = codes "enp0s31f6"; ifa_addr = inet relay_a }
    ∷ record { ifa_name = codes "wlan0"; ifa_addr = inet relay_b }
    ∷ []

pub have_addresses : HasAddresses interfaces
have_addresses = omega arith

pub two_local : local_addresses interfaces ≡ relay_a ∷ relay_b ∷ []
unfolding str_eq
two_local = refl

abbrev pub same_address : Bytes → Bytes
same_address addr = addr

abbrev long_address : Bytes
long_address = codes "193.136.221.100"

abbrev pub label : Bytes
label = codes "tuple "

pub label-IsLabel : IsLabel label
label-IsLabel = record {
  some_bytes = cc;
  no_comma = omega arith;
  no_bracket = omega arith;
  no_nul = omega arith;
  no_o = omega arith;
}

abbrev pub empty_dsts : List Bytes
empty_dsts = replicate max_flows []

receiver_addresses_example :
    (commands : Bytes) × (device : Bytes) × (addresses : Bytes) × (setup_receiver same_address
        interfaces 8080 false []
      ≡ some (
          send_to_manager commands
          ∷ create_darshana_server (run_darshana_server relay_a darshana_server_port)
          ∷ listen_on relay_a 8080
          ∷ []))
    × PutsOut (lines commands) device addresses
    × (get_receiver_info_from_manager empty_dsts relay_a (
          received (codes "OK\n")
          ∷ received (tuple_line label device)
          ∷ received (codes "OK\n")
          ∷ received (tuple_line label addresses)
          ∷ [])
        ≡ some (
          length (local_addresses interfaces),
          store_all empty_dsts 0 (local_addresses interfaces),
          size_question relay_a
              ∷ address_question relay_a (length (local_addresses interfaces))
              ∷ [],
        ))
receiver_addresses_example =
    receiver_addresses same_address interfaces 8080 [] empty_dsts label relay_a (relay_b ∷ []) []
      have_addresses two_local (omega arith) (relay_a-IsAddress, (relay_b-IsAddress, tt))
      (omega arith) label-IsLabel (omega arith) (omega arith)
