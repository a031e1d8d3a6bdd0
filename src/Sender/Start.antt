-- ===== src/Sender/Start.antt =====
-- The whole of setup_sender of SCMultipath/sending_handler.c,
-- init_socket_communication_with_receiver of SCMultipath/connection_manager.c, and
-- machete_setup_sender_spec of SCMultipath/machete_sender.c. `none` is a crash, the end of the
-- process, or a loop that has not ended within its fuel.
pub mod Plan
pub mod Ready
pub mod Run
pub mod Life
pub mod Overflow
use premium.Base.{ℕ, ℤ, pos, negsuc, List, [], ◌∷◌, Bool, Option, none, some, ◌>>=◌}
use premium.Text.{Bytes}
use premium.Net.Probe.{
  Verdict, not_enough, exactly_enough, enough, probe_overlay_nodes, validate_number_of_hops,
}
use premium.Manager.Buffer.{Arrival}
use premium.Manager.Nodes.{get_overlay_nodes_from_manager}
use premium.Manager.Receiver.{get_receiver_info_from_manager}
use premium.Dar.Receiver.{Dar}
use premium.Dar.Receiver.Socket.{DarSocket}
use premium.Sender.State.{
  open_receiver_socket, close_receiver_socket, catch_sigusr1, Network, State, perform,
}
use premium.Sender.Interfaces.{IfAddrs, Machine, setup_machete_info}
use premium.Sender.Session.{SetupSenderArg, shutdown_communication, setup_paths}

-- What the network and the machine answer, and what the reserved strings hold.
pub record Environment : Type 0 where
  pub node_answers : List Arrival
  pub ping : ℕ → Bytes → Bool
  pub receiver_answers : List Arrival
  pub interfaces_before : List IfAddrs
  pub interfaces_after : List IfAddrs
  pub machine : Machine
  pub stun : Bytes → Bytes
  pub dar_socket : DarSocket
  pub con_result : ℤ
  pub reserved_hops : List Bytes
  pub reserved_srcs : List Bytes
  pub reserved_dsts : List Bytes
  pub reserved_interface : Bytes
  pub reserved_dar_ip : Bytes
  pub reserved_dar_port : ℕ

-- What a sender that is set up has: the commands that created sources and the questions it asked come
-- before the effects of its state.
pub record Session : Type 0 where
  pub network : Network
  pub created : List Bytes
  pub questions : List Bytes
  pub state : State

-- A connection that fails ends the process.
unfoldable pub init_socket_communication_with_receiver : Bytes → ℕ → ℤ → State → Option State
init_socket_communication_with_receiver receiver_ip receiver_port (pos n) s =
    some (perform (open_receiver_socket receiver_ip receiver_port ∷ []) s)
init_socket_communication_with_receiver receiver_ip receiver_port (negsuc n) s = none

-- A verdict of too few nodes ends the process.
abbrev pub go_on : Verdict → Option {0} Unit
go_on not_enough = none
go_on exactly_enough = some tt
go_on enough = some tt

unfoldable pub setup_sender : ℕ → ℕ → Environment → SetupSenderArg → Dar → Option Session
unfolding init_socket_communication_with_receiver
setup_sender probe_fuel source_fuel env setup_arguments dar = do
  (returned, found) ← get_overlay_nodes_from_manager env.reserved_hops env.node_answers
  (num_hops, hops) ← probe_overlay_nodes env.ping probe_fuel returned found
  checked ← go_on (validate_number_of_hops num_hops setup_arguments.min_number_of_nodes)
  (num_dsts, dsts, questions) ←
      get_receiver_info_from_manager env.reserved_dsts setup_arguments.receiver_addr
        env.receiver_answers
  (created, primary_interface, num_srcs, srcs) ←
      setup_machete_info env.machine source_fuel env.interfaces_before env.interfaces_after num_dsts
        num_hops env.reserved_interface env.reserved_srcs
  let network : Network = record {
    hops = hops;
    dsts = dsts;
    num_srcs = num_srcs;
    num_dsts = num_dsts;
    num_hops = num_hops;
  }
  monitoring ← setup_paths env.stun env.dar_socket network setup_arguments (record {
    srcs = srcs;
    dar_ip = env.reserved_dar_ip;
    dar_port = env.reserved_dar_port;
    dar = dar;
    effects = [];
  })
  connected ←
      init_socket_communication_with_receiver setup_arguments.receiver_addr
        setup_arguments.receiver_port env.con_result (perform (catch_sigusr1 ∷ []) monitoring)
  some (record { network = network; created = created; questions = questions; state = connected })

-- The arguments that machete_setup_sender_spec fills in: the reaction is always the first.
abbrev pub machete_arguments : Bytes → ℕ → ℕ → ℕ → Bool → ℤ → SetupSenderArg
machete_arguments dst_address dst_port overlay_port min_number_of_nodes use_stun_server
      max_dar_alerts =
    record {
      receiver_addr = dst_address;
      receiver_port = dst_port;
      overlay_port = overlay_port;
      min_number_of_nodes = min_number_of_nodes;
      use_stun_server = use_stun_server;
      reaction_spec = shutdown_communication;
      max_dar_alerts = max_dar_alerts;
    }

unfoldable pub machete_setup_sender_spec :
    ℕ → ℕ → Environment → Bytes → ℕ → ℕ → ℕ → Bool → ℤ → Dar → Option Session
machete_setup_sender_spec probe_fuel source_fuel env dst_address dst_port overlay_port
      min_number_of_nodes use_stun_server max_dar_alerts dar =
    setup_sender probe_fuel source_fuel env
      (machete_arguments dst_address dst_port overlay_port min_number_of_nodes use_stun_server
        max_dar_alerts)
      dar
