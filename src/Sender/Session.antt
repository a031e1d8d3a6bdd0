-- ===== src/Sender/Session.antt =====
-- A session of the sender: the steps of setup_sender from the flows on, teardown_sender and
-- handle_dar_signal of SCMultipath/sending_handler.c, and the start and the end of path monitoring
-- of SCMultipath/path_monitoring.c.
pub mod Monitoring
pub mod Reaction
pub mod Unheard
use premium.Base.{ℕ, ℤ, List, [], ◌∷◌, ◌++◌, Bool, Option, none, some, map, if◌then◌else◌, ◌>>=◌}
use premium.Text.{Bytes}
use premium.Dar.Receiver.{setup_dar}
use premium.Dar.Receiver.Socket.{DarSocket, init_dar_socket}
use premium.Sender.State.{
  Effect, system, open_dar_socket, close_dar_socket, close_receiver_socket, close_log_file, Network,
  State, perform,
}
use premium.Sender.Flows.{setup_each_flow, clean_rules}
use premium.Sender.Interfaces.{IfAddrs, clean_virtual_interfaces}

pub data MacheteReaction : Type 0 where
  shutdown_communication : MacheteReaction
  shutdown_communication_and_starts_again_wout_bad_path : MacheteReaction
  reuse_paths_left : MacheteReaction
  create_new_path : MacheteReaction
  do_nothing_and_ignore_alerts : MacheteReaction
  -- any other value of the enumeration's type
  other_reaction : MacheteReaction

-- setup_sender_arg without the address and the port of the manager's proxy.
pub record SetupSenderArg : Type 0 where
  pub receiver_addr : Bytes
  pub receiver_port : ℕ
  pub overlay_port : ℕ
  pub min_number_of_nodes : ℕ
  pub use_stun_server : Bool
  pub reaction_spec : MacheteReaction
  pub max_dar_alerts : ℤ

-- `none` is the end of the process by init_dar_socket. The thread is created whatever it returns.
unfoldable pub start_path_monitoring_module : DarSocket → Bytes → ℕ → ℤ → State → Option State
unfolding init_dar_socket
start_path_monitoring_module dar_socket sender_ip sender_port max_dar_alerts s = do
  opened ← init_dar_socket dar_socket
  some (
      perform (if opened then open_dar_socket sender_ip sender_port ∷ [] else [])
        (record s { dar = setup_dar max_dar_alerts s.dar }))

unfoldable pub stop_path_monitoring_module : State → State
stop_path_monitoring_module s = perform (close_dar_socket ∷ []) s

-- setup_sender from the call of setup_each_flow to that of start_path_monitoring_module.
unfoldable pub setup_paths :
    (Bytes → Bytes) → DarSocket → Network → SetupSenderArg → State → Option State
setup_paths stun dar_socket net setup_arguments s = do
  s' ←
      setup_each_flow stun net setup_arguments.overlay_port setup_arguments.receiver_port
        setup_arguments.use_stun_server s
  start_path_monitoring_module dar_socket s'.dar_ip s'.dar_port setup_arguments.max_dar_alerts s'

-- The third argument is what getifaddrs returns.
unfoldable pub teardown_sender : Network → SetupSenderArg → List IfAddrs → State → Option State
unfolding stop_path_monitoring_module
teardown_sender net setup_arguments ifaddr s = do
  s' ←
      clean_rules net setup_arguments.overlay_port setup_arguments.receiver_port
        (stop_path_monitoring_module (perform (close_receiver_socket ∷ []) s))
  cs ← clean_virtual_interfaces ifaddr
  some (perform (map system cs ++ close_log_file ∷ []) s')

-- What the handler of SIGUSR1 does: it returns to the thread that raised the signal, or it ends the
-- process.
pub data Outcome : Type 0 where
  returns exits : Outcome

-- The branches of handle_dar_signal, given what teardown_sender comes to.
unfoldable pub react : MacheteReaction → Option State → State → Option (Outcome × State)
react shutdown_communication torn_down s = do s' ← torn_down; some (exits, s')
react shutdown_communication_and_starts_again_wout_bad_path torn_down s = do
  s' ← torn_down
  some (returns, s')
react reuse_paths_left torn_down s = some (returns, s)
react create_new_path torn_down s = some (returns, s)
react do_nothing_and_ignore_alerts torn_down s = some (returns, s)
react other_reaction torn_down s = do s' ← torn_down; some (exits, s')

unfoldable pub handle_dar_signal :
    Network → SetupSenderArg → List IfAddrs → State → Option (Outcome × State)
unfolding react
handle_dar_signal net setup_arguments ifaddr s =
    react setup_arguments.reaction_spec (teardown_sender net setup_arguments ifaddr s) s
