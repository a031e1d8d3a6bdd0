-- ===== src/Sender/State.antt =====
-- The sender's globals and what it does to the machine and the network. Logging and timing are left
-- out. A function that walks off an array or reads through NULL returns `none`.
use premium.Base.{ℕ, List, [], ◌∷◌, ◌++◌}
use premium.Text.{Bytes, codes, strcat_all}
use premium.Text.Decimal.{decimal}
use premium.Rules.Spec.{darshana_monitoring_mode, darshana_metrics_thresholds}
use premium.Rules.Node.{darshana_relative_path}
use premium.Dar.Receiver.{Dar}

abbrev pub max_flows : ℕ
max_flows = 20

abbrev pub dar_port_number : ℕ
dar_port_number = 10101

abbrev pub darshana_server_port : Bytes
darshana_server_port = codes "11130"

-- atoi(DARSHANA_SERVER_PORT)
abbrev pub darshana_server_port_number : ℕ
darshana_server_port_number = 11130

pub data Effect : Type 0 where
  -- a command for system
  system : Bytes → Effect
  -- setup_overlay_node: node, port, forwarding rule, Darshana rule
  setup_overlay_node : Bytes → ℕ → Bytes → Bytes → Effect
  -- the thread sender_darshanas[i] that runs a command, and its cancellation
  create_darshana : ℕ → Bytes → Effect
  cancel_darshana : ℕ → Effect
  -- the DAR socket with the thread that reads it, and the connection to the receiver
  open_dar_socket : Bytes → ℕ → Effect
  open_receiver_socket : Bytes → ℕ → Effect
  close_dar_socket close_receiver_socket close_log_file : Effect
  -- the registration of handle_dar_signal for SIGUSR1
  catch_sigusr1 : Effect

-- What setup_sender finds out before it sets up the flows; the arrays have MAX_FLOWS strings.
pub record Network : Type 0 where
  pub hops : List Bytes
  pub dsts : List Bytes
  pub num_srcs : ℕ
  pub num_dsts : ℕ
  pub num_hops : ℕ

-- What the functions below write.
pub record State : Type 0 where
  pub srcs : List Bytes
  pub dar_ip : Bytes
  pub dar_port : ℕ
  pub dar : Dar
  pub effects : List Effect

abbrev pub perform : List Effect → State → State
perform es s = record s { effects = s.effects ++ es }

-- The command of the Darshana instance that watches the way to an overlay node.
unfoldable pub run_sender_darshana : Bytes → ℕ → Bytes → Bytes → Bytes → Bytes
run_sender_darshana sender_dar_ip sender_dar_port sender_ip_assign_to_node node_darshana_addr
      node_darshana_port =
    strcat_all (
      codes "cd "
      ∷ darshana_relative_path
      ∷ codes "; sh run-client-broadcaster_args.sh "
      ∷ darshana_monitoring_mode
      ∷ codes " "
      ∷ sender_ip_assign_to_node
      ∷ codes " "
      ∷ node_darshana_addr
      ∷ codes " "
      ∷ node_darshana_port
      ∷ codes " "
      ∷ darshana_metrics_thresholds
      ∷ codes " "
      ∷ sender_dar_ip
      ∷ codes ","
      ∷ decimal sender_dar_port
      ∷ codes " >> darshana-client-node.out &"
      ∷ [])
