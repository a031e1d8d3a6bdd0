-- ===== src/Dar/Receiver.antt =====
-- SCMultipath/dar/alerts_receiver.c: the thread that reads alerts, keeps them, marks the paths that
-- they name and raises SIGUSR1. What read returns and the time are arguments; a run ends when read
-- fails, when the signal's handler ends the process, when an alert crashes it, or it waits for more.
pub mod Loop
pub mod Threshold
pub mod Socket
use premium.Base.{
  ℕ, ◌+◌, ℤ, pos, reaches, List, [], ◌∷◌, Bool, true, false, Option, none, some, if◌then◌else◌,
  ◌>>=◌,
}
use premium.Text.{Bytes, c_string}
use premium.Dar.Time.{Tm}
use premium.Dar.Alerts.{HijackAlert, parse_hijack_alert, insert_end_h}
use premium.Dar.Chain.{Ptr, null, Memory}
use premium.Dar.Paths.{PathStatus, save_unstructured_path, analyse_hijack_alert}

-- The globals of the three files, with the two heaps that their lists live on, and the number of
-- times that SIGUSR1 was raised.
pub record Dar : Type 0 where
  pub alerts_history_head : Ptr
  pub alerts : Memory HijackAlert
  pub monitored_paths_list_head : Ptr
  pub paths : Memory PathStatus
  pub max_dar_alerts : ℤ
  pub signals : ℕ

-- Both lists are emptied; the nodes that they held stay allocated.
unfoldable pub setup_dar : ℤ → Dar → Dar
setup_dar max_number_of_alerts_to_trigger d = record d {
  alerts_history_head = null;
  monitored_paths_list_head = null;
  max_dar_alerts = max_number_of_alerts_to_trigger;
}

unfoldable pub add_monitored_path : Bytes → Bytes → Bytes → Dar → Option Dar
add_monitored_path source_ip relay_ip destination_ip d = do
  (head, m) ←
      save_unstructured_path d.monitored_paths_list_head source_ip relay_ip destination_ip d.paths
  some (record d { monitored_paths_list_head = head; paths = m })

unfoldable pub save_hijack_alert : HijackAlert → Dar → Option Dar
save_hijack_alert alert d = do
  (head, m) ← insert_end_h d.alerts_history_head alert d.alerts
  some (record d { alerts_history_head = head; alerts = m })

unfoldable pub handle_client_alert : Tm → Bytes → Dar → Option Dar
unfolding save_hijack_alert
handle_client_alert now buffer d = do
  alert ← parse_hijack_alert now buffer
  d' ← save_hijack_alert alert d
  m ← analyse_hijack_alert d'.monitored_paths_list_head alert d'.paths
  some (record d' { paths = m })

unfoldable pub alert_machete_of_compromised_path : Dar → Dar
alert_machete_of_compromised_path d = record d { signals = d.signals + 1 }

-- One read of the socket: it fails, or it returns bytes at some time.
pub data Read : Type 0 where
  failed : Read
  got : Tm → Bytes → Read

pub data Ending : Type 0 where
  waiting shut_down exited crashed : Ending

-- The first argument says whether the handler of SIGUSR1 returns, the second is
-- number_of_alerts_received.
unfoldable pub handle_darshana_client_loop : Bool → ℕ → List Read → Dar → Ending × Dar
handle_darshana_client_loop returns count [] d = (waiting, d)
handle_darshana_client_loop returns count (failed ∷ reads) d = (shut_down, d)
handle_darshana_client_loop returns count (got now buffer ∷ reads) d =
    elim (handle_client_alert now (c_string buffer) d) [
      | none ↦ (crashed, d)
      | some d' ↦
          let quiet = handle_darshana_client_loop returns (count + 1) reads d' in
          let raised = alert_machete_of_compromised_path d' in
          let loud = handle_darshana_client_loop returns (count + 1) reads raised in
          if reaches (count + 1) d'.max_dar_alerts
          then (if returns then loud else (exited, raised))
          else quiet
    ]
