-- ===== src/Tests/Start.antt =====
-- A sender with one address, which creates a second one, two nodes and a receiver with one address.
use premium.Base.{
  ◌+◌, ◌*◌, ◌≤◌, pos, List, [], ◌∷◌, ◌++◌, ◌≡◌, refl, true, false, none, some, arith, ℕ, map,
  concat_map, length,
}
use premium.Text.{codes, str_eq}
use premium.Manager.Buffer.{received}
use premium.Manager.Nodes.{IsAddress, node_lines}
use premium.Manager.Receiver.{size_question, address_question}
use premium.Manager.Receiver.Lines.{size_line, address_line}
use premium.Rules.Teardown.{delete_form}
use premium.Dar.Receiver.{Dar, setup_dar}
use premium.Dar.Receiver.Loop.{IsDar}
use premium.Dar.Receiver.Socket.{socket_bound}
use premium.Dar.Chain.Shape.{Holds-nil}
use premium.Sender.State.{dar_port_number}
use premium.Sender.Interfaces.{
  IfAddrs, inet, dot, Machine, strchr, primary_addr, create_virtual_interface, setup_machete_info,
}
use premium.Sender.Interfaces.Loop.{CanCreate}
use premium.Text.Decimal.{decimal}
use premium.Sender.Interfaces.Local.{local_addresses}
use premium.Sender.Flows.Order.{grid}
use premium.Sender.Flows.Setup.{Flow, FlowsAt, flow_setup}
use premium.Sender.Flows.Clean.{commands, sender_teardown}
use premium.Sender.Session.{SetupSenderArg, exits, handle_dar_signal}
use premium.Sender.Session.Reaction.{teardown_effects}
use premium.Sender.Start.{
  Environment, Session, machete_arguments, setup_sender, machete_setup_sender_spec,
}
use premium.Sender.Start.Plan.{plan}
use premium.Sender.Start.Ready.{IsAnswered, IsReady, IsLeast, TooFew, primary_of}
use premium.Sender.Start.Overflow.{setup_sender_overflows}
use premium.Sender.Start.Run.{setup_effects, setup_sender_lem}
use premium.Sender.Start.Life.{session_ends}
use premium.Tests.{sender_ip, receiver_ip, relay_a, relay_b, relay_a-IsAddress, relay_b-IsAddress}
use premium.Tests.Dar.{dar, dar-IsDar}
use premium.Tests.Receiver.{label, label-IsLabel, empty_dsts}
use premium.Tests.Sender.{second_ip, no_stun, interfaces, down, interfaces_cleaned}

abbrev pub one_interface : List IfAddrs
one_interface =
    record { ifa_name = codes "lo"; ifa_addr = inet (codes "127.0.0.1") }
    ∷ record { ifa_name = codes "eth0"; ifa_addr = inet sender_ip }
    ∷ []

abbrev pub two_interfaces : List IfAddrs
two_interfaces =
    one_interface ++ record { ifa_name = codes "eth0:2"; ifa_addr = inet second_ip } ∷ []

-- No address answers while aliases are created.
abbrev machine : Machine
machine = record {
  interfaces = λ n. one_interface;
  answers = λ n ip. false;
  time = λ n. 1464782400;
  stack = λ n. [];
  alias_fuel = 1;
}

abbrev pub environment : Environment
environment = record {
  node_answers = received (codes "OK\n") ∷ node_lines label (relay_a ∷ relay_b ∷ []) [];
  ping = λ t ip. true;
  receiver_answers =
      received (codes "OK\n")
      ∷ received (size_line label receiver_ip 1)
      ∷ received (codes "OK\n")
      ∷ received (address_line label (receiver_ip ∷ []))
      ∷ [];
  interfaces_before = one_interface;
  interfaces_after = two_interfaces;
  machine = machine;
  stun = no_stun;
  dar_socket = socket_bound;
  con_result = pos 0;
  reserved_hops = empty_dsts;
  reserved_srcs = empty_dsts;
  reserved_dsts = empty_dsts;
  reserved_interface = [];
  reserved_dar_ip = codes "?";
  reserved_dar_port = 77;
}

abbrev pub start_arguments : SetupSenderArg
start_arguments = machete_arguments receiver_ip 8080 9000 2 false (pos 2)

receiver-IsAddress : IsAddress receiver_ip
receiver-IsAddress = record { some_bytes = cc; dotted = omega arith; fits = omega arith }

pub environment-IsAnswered :
    IsAnswered environment start_arguments label relay_a (relay_b ∷ []) receiver_ip []
unfolding str_eq
environment-IsAnswered = record {
  nodes_answered = refl;
  pings_answered = λ t ip. refl;
  receiver_answered = refl;
  usable_before = omega arith;
  is_label = label-IsLabel;
  receiver_IsAddress = receiver-IsAddress;
  are_nodes = (relay_a-IsAddress, (relay_b-IsAddress, tt));
  are_addresses = (receiver-IsAddress, tt);
  hops_reserved = refl;
  srcs_reserved = refl;
  dsts_reserved = refl;
  nodes_fit = omega arith;
  addresses_fit = omega arith;
  before_fits = omega arith;
  min_nodes = omega arith;
}

eth0_address :
    primary_addr one_interface (codes "eth0") []
    ≡ some (codes "10" ++ dot ∷ (codes "0" ++ dot ∷ (codes "0" ++ dot ∷ decimal 1)))
unfolding primary_addr str_eq decimal
eth0_address = refl

eth0_e : strchr (codes "eth0") b'e' ≡ true
unfolding strchr
eth0_e = refl

eth0_primary : primary_of environment ≡ codes "eth0"
unfolding str_eq
eth0_primary = refl

eth0_creates : CanCreate machine (codes "eth0") 1 2
eth0_creates = record {
  has_e = eth0_e;
  pt1 = codes "10";
  pt2 = codes "0";
  pt3 = codes "0";
  part = 1;
  tries = λ n. 0;
  pt1_token = (cc, omega arith);
  pt2_token = (cc, omega arith);
  pt3_token = (cc, omega arith);
  has_address = λ n ge lt. eth0_address;
  taken = λ n ge lt i le. absurd (omega arith);
  free = λ n ge lt. refl;
  small = λ n ge lt. omega arith;
  fueled = λ n ge lt. omega arith;
}

one_local : length (local_addresses one_interface) ≡ 1
unfolding str_eq
one_local = refl

pub ready :
    IsReady environment start_arguments label relay_a
      (relay_b ∷ [])
      receiver_ip
      []
      sender_ip
      (second_ip ∷ [])
unfolding str_eq
ready = record {
  answered = environment-IsAnswered;
  can_create = λ few. eth0_creates;
  usable_after = omega arith;
  sources_after = refl;
  sources_fit = omega arith;
  binds = refl;
  connects = refl;
  no_stun = refl;
}

pub rounds : 2 ≤ length (local_addresses one_interface) * 1 + 1
rounds = omega (arith, one_local)

abbrev pub no_alerts : Dar
no_alerts = setup_dar (pos 2) dar

pub no_alerts-IsDar : IsDar no_alerts [] []
unfolding setup_dar
no_alerts-IsDar = record {
  alerts_held = Holds-nil dar-IsDar.alerts_held;
  paths_held = Holds-nil dar-IsDar.paths_held;
}

setup_sender_example :
    (session : Session) × (fs : List Flow) × (setup_sender 3 2 environment start_arguments no_alerts
      ≡ some session)
    × FlowsAt
        (plan (relay_a ∷ relay_b ∷ []) (receiver_ip ∷ []) (sender_ip ∷ second_ip ∷ []))
        (sender_ip ∷ second_ip ∷ [])
        (grid 1 0 2)
        fs
    × FlowsAt session.network session.state.srcs
        (grid session.network.num_dsts 0 session.network.num_srcs)
        fs
    × (session.state.effects ≡ setup_effects start_arguments sender_ip fs)
    × (session.state.dar_ip ≡ sender_ip)
    × (session.state.dar_port ≡ dar_port_number)
    × (session.questions ≡ size_question receiver_ip ∷ address_question receiver_ip 1 ∷ [])
    × IsLeast 1 2 (length (local_addresses one_interface)) (length session.created)
    × IsDar session.state.dar [] []
setup_sender_example =
    setup_sender_lem environment start_arguments label relay_a (relay_b ∷ []) receiver_ip []
      sender_ip (second_ip ∷ []) 1 no_alerts ready rounds no_alerts-IsDar

session_ends_example :
    (session : Session) × (fs : List Flow) × (machete_setup_sender_spec 3 2 environment receiver_ip
        8080 9000 2 false
        (pos 2)
        no_alerts
      ≡ some session)
    × FlowsAt
        (plan (relay_a ∷ relay_b ∷ []) (receiver_ip ∷ []) (sender_ip ∷ second_ip ∷ []))
        (sender_ip ∷ second_ip ∷ [])
        (grid 1 0 2)
        fs
    × (handle_dar_signal session.network start_arguments interfaces session.state
        ≡ some (
          exits,
          record session.state {
            effects =
                setup_effects start_arguments sender_ip fs
                ++ teardown_effects start_arguments sender_ip dar_port_number fs down;
          },
        ))
    × (commands (concat_map sender_teardown fs)
        ≡ map delete_form (commands (concat_map (flow_setup 9000 8080 sender_ip) fs)))
session_ends_example =
    session_ends environment label receiver_ip relay_a (relay_b ∷ []) receiver_ip [] sender_ip
      (second_ip ∷ []) 1 8080 9000 2 (pos 2) no_alerts interfaces down ready rounds no_alerts-IsDar
      interfaces_cleaned

-- The same sender with wlan0.
abbrev wlan_environment : Environment
wlan_environment = record environment {
  interfaces_before =
      record { ifa_name = codes "lo"; ifa_addr = inet (codes "127.0.0.1") }
      ∷ record { ifa_name = codes "wlan0"; ifa_addr = inet sender_ip }
      ∷ [];
}

wlan-IsAnswered :
    IsAnswered wlan_environment start_arguments label relay_a (relay_b ∷ []) receiver_ip []
unfolding str_eq
wlan-IsAnswered = record {
  nodes_answered = refl;
  pings_answered = λ t ip. refl;
  receiver_answered = refl;
  usable_before = omega arith;
  is_label = label-IsLabel;
  receiver_IsAddress = receiver-IsAddress;
  are_nodes = (relay_a-IsAddress, (relay_b-IsAddress, tt));
  are_addresses = (receiver-IsAddress, tt);
  hops_reserved = refl;
  srcs_reserved = refl;
  dsts_reserved = refl;
  nodes_fit = omega arith;
  addresses_fit = omega arith;
  before_fits = omega arith;
  min_nodes = omega arith;
}

wlan0_few : TooFew wlan_environment (receiver_ip ∷ []) (relay_a ∷ relay_b ∷ [])
unfolding str_eq
wlan0_few = omega arith

wlan0-no_e : strchr (primary_of wlan_environment) b'e' ≡ false
unfolding strchr str_eq
wlan0-no_e = refl

setup_sender_overflows_example :
    ((time : ℕ) → create_virtual_interface time (primary_of wlan_environment) ≡ none)
    × (setup_machete_info machine 9 wlan_environment.interfaces_before two_interfaces 1 2 []
          empty_dsts
        ≡ none)
    × (setup_sender 3 9 wlan_environment start_arguments no_alerts ≡ none)
setup_sender_overflows_example =
    setup_sender_overflows wlan_environment start_arguments label relay_a (relay_b ∷ []) receiver_ip
      [] 9 no_alerts wlan-IsAnswered wlan0_few wlan0-no_e
