-- ===== src/Apps/Program.antt =====
-- The programs that send: main of SCMultipath/file_client.c, hi_client.c and hi_client_eval.c, and the
-- loop of hi_client.c. `none` is a crash, a write past an array, the end of the process, or a loop
-- that has not ended within its fuel.
pub mod Session
pub mod Experiments
use premium.Base.{
  ℕ, zero, suc, ◌+◌, ℤ, pos, List, [], ◌∷◌, ◌++◌, Bool, not, Option, none, some, ◌==◌,
  if◌then◌else◌, ◌>>=◌, length, map,
}
use premium.Text.{Bytes, codes}
use premium.Text.Decimal.{atoi}
use premium.Manager.Register.{within}
use premium.Rules.Nat.{flush_nat_iptables}
use premium.Dar.Receiver.{Dar}
use premium.Sender.State.{system, State, perform}
use premium.Sender.Interfaces.{IfAddrs}
use premium.Sender.Session.{SetupSenderArg, teardown_sender}
use premium.Sender.Start.{Environment, machete_arguments, machete_setup_sender_spec}
use premium.Apps.Stream.{recv, le_bytes, recv_integer}
use premium.Apps.File.{send_file_protocol}
use premium.Apps.Echo.{hi_message, execute_hello_message_exchange}

pub record SenderArguments : Type 0 where
  pub depspace_proxy_ip : Bytes
  pub depspace_proxy_port : ℕ
  pub receiver_ip : Bytes
  pub receiver_port : ℕ
  pub overlay_port : ℕ
  pub min_number_of_nodes : ℕ
  pub use_stun_server : Bool
  pub max_dar_alerts : ℕ
  pub filename : Bytes

-- argv without the program's name. Three arguments are copied to arrays of 20 bytes; fewer than ten
-- are a read through NULL.
unfoldable pub sender_arguments : List Bytes → Option SenderArguments
sender_arguments
      (mode ∷ proxy_ip ∷ proxy_port ∷ receiver ∷ port ∷ overlay ∷ nodes ∷ stun ∷ alerts ∷ name
        ∷ more) =
    do
      depspace_proxy_ip ← within 20 proxy_ip
      receiver_ip ← within 20 receiver
      filename ← within 20 name
      some (record {
        depspace_proxy_ip = depspace_proxy_ip;
        depspace_proxy_port = atoi proxy_port;
        receiver_ip = receiver_ip;
        receiver_port = atoi port;
        overlay_port = atoi overlay;
        min_number_of_nodes = atoi nodes;
        use_stun_server = not (atoi stun == 0);
        max_dar_alerts = atoi alerts;
        filename = filename;
      })
sender_arguments argv = none

-- The rounds of hi_client.c: it sends until a call of recv returns nothing.
unfoldable pub hello_loop : ℕ → List Bytes → Option (List Bytes)
hello_loop zero pieces = none
hello_loop (suc fuel) pieces =
    let (size_bytes, pieces') = recv 8 pieces in
    let echo_message_size = recv_integer 8 size_bytes in
    let (recv_message, later) = recv echo_message_size pieces' in
    let rest = hello_loop fuel later in
    let more : Option (List Bytes) =
      if length size_bytes == 0
      then some []
      else if length recv_message == 0
      then some []
      else rest in
    do sent ← more; some (le_bytes 8 (length hi_message) ∷ hi_message ∷ sent)

-- What one experiment of hi_client_eval.c meets.
pub record Experiment : Type 0 where
  pub env : Environment
  pub ifaddr : List IfAddrs
  pub pieces : List Bytes

abbrev pub clean_up : List Bytes
clean_up =
    flush_nat_iptables
    ∷ codes "pkill java"
    ∷ codes "cd ../evaluation; sh run-adapter.sh 1005; cd ../SCMultipath/;"
    ∷ []

abbrev pub max_experiments_threshold : ℕ
max_experiments_threshold = 31

-- The fuel of the probe and of the loop that creates sources.
module _ (probe_fuel source_fuel : ℕ) where
  -- A session around what a program sends over it; `ifaddr` is what getifaddrs returns at its end.
  unfoldable pub with_session {ℓ} :
      {A : Type ℓ}
      → Environment
      → SenderArguments
      → Dar
      → List IfAddrs
      → Option A
      → Option (A × State)
  with_session env args dar ifaddr application = do
    session ←
        machete_setup_sender_spec probe_fuel source_fuel env args.receiver_ip args.receiver_port
          args.overlay_port args.min_number_of_nodes args.use_stun_server (pos args.max_dar_alerts)
          dar
    sent ← application
    torn_down ←
        teardown_sender session.network
          (machete_arguments args.receiver_ip args.receiver_port args.overlay_port
            args.min_number_of_nodes args.use_stun_server (pos args.max_dar_alerts))
          ifaddr session.state
    some (sent, torn_down)

  -- `file` says what fopen finds under a name, `sizes` what stat says of it.
  unfoldable pub file_client_main :
      Environment
      → Dar
      → List IfAddrs
      → (Bytes → Option Bytes)
      → (Bytes → ℕ)
      → (ℕ → Option ℕ)
      → List Bytes
      → Option (Bytes × State)
  unfolding sender_arguments with_session
  file_client_main env dar ifaddr file sizes sendfile argv = do
    args ← sender_arguments argv
    with_session env args dar ifaddr
        (send_file_protocol (file args.filename) (sizes args.filename) sendfile args.filename)

  -- `pieces` is what the server sends.
  unfoldable pub hi_client_main :
      ℕ → Environment → Dar → List IfAddrs → List Bytes → List Bytes → Option (List Bytes × State)
  unfolding sender_arguments with_session hello_loop
  hi_client_main fuel env dar ifaddr pieces argv = do
    args ← sender_arguments argv
    with_session env args dar ifaddr (hello_loop fuel pieces)

  -- The experiments that are left, from the i-th on. The lists of the receiver of alerts stay from
  -- one to the next.
  unfoldable pub run_experiments :
      ℕ → ℕ → (ℕ → Experiment) → SenderArguments → Dar → Option (List (List Bytes × State))
  unfolding with_session
  run_experiments zero i experiment args dar = some []
  run_experiments (suc n) i experiment args dar = do
    (sent, s) ←
        with_session (experiment i).env args dar (experiment i).ifaddr
          (some (execute_hello_message_exchange (experiment i).pieces))
    rest ← run_experiments n (i + 1) experiment args s.dar
    some ((sent, perform (map system clean_up) s) ∷ rest)

  unfoldable pub hi_client_eval_main :
      (ℕ → Experiment) → Dar → List Bytes → Option (List (List Bytes × State))
  unfolding sender_arguments run_experiments
  hi_client_eval_main experiment dar argv = do
    args ← sender_arguments argv
    run_experiments max_experiments_threshold 0 experiment args dar
