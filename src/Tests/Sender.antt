-- ===== src/Tests/Sender.antt =====
-- A sender with two addresses, one receiver address and two overlay nodes.
use premium.Base.{
  All, ℕ, zero, suc, Bool, ◌+◌, ◌≤◌, ◌<◌, pos, List, [], ◌∷◌, ◌++◌, ◌≡◌, refl, true, false, some,
  arith, concat_map, length,
}
use premium.Text.{Bytes, codes, str_eq, strcat_all, Token}
use premium.Text.Decimal.{decimal}
use premium.Sender.Interfaces.Alias.{candidate, address_with, create_virtual_ifconfig-candidate}
use premium.Dar.Receiver.{Dar, waiting, shut_down, handle_darshana_client_loop}
use premium.Dar.Receiver.Loop.{IsDar, signals_due}
use premium.Dar.Receiver.Socket.{
  socket_bound, socket_fails, init_dar_socket, handle_darshana_client_thread_function,
}
use premium.Sender.Session.Unheard.{setup_paths-unheard}
use premium.Sender.State.{open_dar_socket, dar_port_number, Network, State}
use premium.Sender.Flows.{hop_index}
use premium.Sender.Flows.Order.{grid}
use premium.Sender.Flows.Setup.{Flow, FlowsAt, flow_setup}
use premium.Sender.Interfaces.{
  create_virtual_ifconfig, dot, IfAddrs, inet, clean_virtual_interfaces,
}
use premium.Sender.Interfaces.Local.{IsInterface, local_addresses}
use premium.Sender.Session.{
  SetupSenderArg, shutdown_communication, exits, setup_paths, handle_dar_signal,
}
use premium.Sender.Session.Monitoring.{setup_paths-monitors_none}
use premium.Sender.Session.Reaction.{teardown_effects, handle_dar_signal_lem}
use premium.Tests.{sender_ip, receiver_ip, relay_a, relay_b}
use premium.Tests.Dar.{alert, path, dar, dar-IsDar, reads, read_parsed}

abbrev pub second_ip : Bytes
second_ip = codes "10.0.0.2"

abbrev pub net : Network
net = record {
  hops = relay_a ∷ relay_b ∷ [];
  dsts = receiver_ip ∷ [];
  num_srcs = 2;
  num_dsts = 1;
  num_hops = 2;
}

abbrev pub state : State
state = record {
  srcs = sender_ip ∷ second_ip ∷ [];
  dar_ip = [];
  dar_port = 0;
  dar = dar;
  effects = [];
}

abbrev pub flows : List Flow
flows =
    record { src = sender_ip; dst = receiver_ip; hop = relay_a; index = 0 }
    ∷ record { src = second_ip; dst = receiver_ip; hop = relay_b; index = 1 }
    ∷ []

pub flows-FlowsAt : FlowsAt net (sender_ip ∷ second_ip ∷ []) (grid 1 0 2) flows
unfolding hop_index
flows-FlowsAt = (refl, (refl, tt))

abbrev pub no_stun : Bytes → Bytes
no_stun addr = addr

abbrev arguments : SetupSenderArg
arguments = record {
  receiver_addr = receiver_ip;
  receiver_port = 8080;
  overlay_port = 9000;
  min_number_of_nodes = 1;
  use_stun_server = false;
  reaction_spec = shutdown_communication;
  max_dar_alerts = pos 2;
}

setup_paths-monitors_none_example :
    (s : State) × (d : Dar) × (setup_paths no_stun socket_bound net arguments state ≡ some s)
    × (s.effects
        ≡ concat_map (flow_setup 9000 8080 sender_ip) flows
          ++ open_dar_socket sender_ip dar_port_number ∷ [])
    × (s.srcs ≡ sender_ip ∷ second_ip ∷ [])
    × (s.dar_ip ≡ sender_ip)
    × (s.dar_port ≡ dar_port_number)
    × IsDar s.dar [] []
    × (handle_darshana_client_loop true 0 reads s.dar ≡ (waiting, d))
    × IsDar d (alert ∷ alert ∷ []) []
    × (d.signals ≡ s.dar.signals + signals_due 0 (pos 2) (alert ∷ alert ∷ []))
setup_paths-monitors_none_example =
    setup_paths-monitors_none no_stun net arguments state flows sender_ip [] (path ∷ []) reads
      (alert ∷ alert ∷ []) refl flows-FlowsAt refl dar-IsDar (read_parsed, (read_parsed, tt))

setup_paths-unheard_example :
    (s : State) × (opened : Bool) × (setup_paths no_stun socket_fails net arguments state ≡ some s)
    × (s.effects ≡ concat_map (flow_setup 9000 8080 sender_ip) flows)
    × (init_dar_socket socket_fails ≡ some opened)
    × (handle_darshana_client_thread_function false opened reads s.dar ≡ (shut_down, s.dar))
    × IsDar s.dar [] []
setup_paths-unheard_example =
    setup_paths-unheard no_stun net arguments state flows sender_ip [] (path ∷ []) false reads refl
      flows-FlowsAt refl dar-IsDar

abbrev pub interfaces : List IfAddrs
interfaces = record { ifa_name = codes "macvlan1"; ifa_addr = inet second_ip } ∷ []

abbrev pub down : List Bytes
down = codes "ifconfig macvlan1 down" ∷ codes "ip link delete dev macvlan1" ∷ []

pub interfaces_cleaned : clean_virtual_interfaces interfaces ≡ some down
unfolding clean_virtual_interfaces str_eq
interfaces_cleaned = refl

handle_dar_signal_example :
    handle_dar_signal net arguments interfaces state
    ≡ some (exits, record state { effects = teardown_effects arguments [] 0 flows down })
handle_dar_signal_example =
    handle_dar_signal_lem net arguments interfaces state flows down flows-FlowsAt interfaces_cleaned

abbrev local_interfaces : List IfAddrs
local_interfaces =
    record { ifa_name = codes "lo"; ifa_addr = inet (codes "127.0.0.1") }
    ∷ record { ifa_name = codes "eth0"; ifa_addr = inet sender_ip }
    ∷ record { ifa_name = codes "wlan0"; ifa_addr = inet second_ip }
    ∷ []

usable : All IsInterface local_interfaces
usable =
    ((omega arith, omega arith), ((omega arith, omega arith), ((omega arith, omega arith), tt)))

room : 0 + length (local_addresses local_interfaces) ≤ 2
unfolding str_eq
room = omega arith

abbrev second_answers : Bytes → Bool
second_answers addr = str_eq addr (codes "10.0.0.2")

second_taken :
    (i : ℕ)
    → i < 1
    → second_answers (address_with (codes "10") (codes "0") (codes "0") (candidate 1 1 i)) ≡ true
unfolding str_eq decimal
second_taken zero lt = refl
second_taken (suc i) lt = absurd (omega arith)

third_free :
    second_answers (address_with (codes "10") (codes "0") (codes "0") (candidate 1 1 1)) ≡ false
unfolding str_eq decimal
third_free = refl

part-Token : Token dot (codes "10")
part-Token = (cc, omega arith)

zero-Token : Token dot (codes "0")
zero-Token = (cc, omega arith)

create_virtual_ifconfig-candidate_example :
    create_virtual_ifconfig second_answers 2 1
      (codes "eth0")
      (codes "10" ++ dot ∷ (codes "0" ++ dot ∷ (codes "0" ++ dot ∷ decimal 1)))
    ≡ some (
        strcat_all (
          codes "ifconfig "
          ∷ codes "eth0"
          ∷ codes ":"
          ∷ decimal 3
          ∷ codes " "
          ∷ address_with (codes "10") (codes "0") (codes "0") 3
          ∷ []))
create_virtual_ifconfig-candidate_example =
    create_virtual_ifconfig-candidate (codes "10") (codes "0") (codes "0") second_answers 1 2 1 1
      (codes "eth0") part-Token zero-Token zero-Token second_taken third_free (omega arith)
      (omega arith)
