-- ===== src/Standalone/Receiver.antt =====
-- Darshana/dar/alerts_receiver.c: main, which reads alerts until a read fails. What socket, bind and
-- read return, the time and what malloc left are arguments. Of what is printed the alerts and the
-- paths are kept; the messages on the program's own state are left out, and so is
-- handle_darshana_client, which nothing calls.
pub mod Loop
use premium.Base.{ℕ, List, [], ◌∷◌, ◌++◌, Bool, Option, none, some, if◌then◌else◌, ◌>>=◌}
use premium.Text.{Bytes, codes, c_string}
use premium.Text.Decimal.{atoi}
use premium.Manager.Register.{within}
use premium.Dar.Time.{Tm}
use premium.Dar.Alerts.{HijackAlert, parse_hijack_alert, insert_end_h}
use premium.Dar.Chain.{Ptr, null, Memory}
use premium.Dar.Receiver.{Read, failed, got}
use premium.Standalone.Paths.{PathStatus, Leftover, init_test_path_values, analyse_hijack_alert}
use premium.Standalone.Show.{show_all_paths}

-- The two lists of the program, each with its heap.
pub record Receiver : Type 0 where
  pub alerts_history_head : Ptr
  pub alerts : Memory HijackAlert
  pub monitored_paths_list_head : Ptr
  pub paths : Memory PathStatus

unfoldable pub init : (ℕ → Leftover) → Receiver → Option Receiver
init left d = do
  (head, m) ← init_test_path_values left null d.paths
  some (record d { alerts_history_head = null; monitored_paths_list_head = head; paths = m })

unfoldable pub save_hijack_alert : HijackAlert → Receiver → Option Receiver
save_hijack_alert alert d = do
  (head, m) ← insert_end_h d.alerts_history_head alert d.alerts
  some (record d { alerts_history_head = head; alerts = m })

-- What it prints, and the lists after it.
unfoldable pub handle_client_alert :
    (Tm → Bytes) → Tm → Bytes → Receiver → Option (Bytes × Receiver)
unfolding save_hijack_alert
handle_client_alert time_string now buffer d = do
  alert ← parse_hijack_alert now buffer
  d' ← save_hijack_alert alert d
  m ← analyse_hijack_alert d'.monitored_paths_list_head alert d'.paths
  listing ← show_all_paths time_string d'.monitored_paths_list_head m
  some (listing, record d' { paths = m })

-- The program waits for more, has ended with exit(1), or has crashed.
pub data Fate : Type 0 where
  listening stopped fell : Fate

abbrev pub alert_announced : Bytes → Bytes
alert_announced buffer = codes "|!ALERT!| -> " ++ (buffer ++ codes "\n")

unfoldable pub receive_loop : (Tm → Bytes) → List Read → Bytes → Receiver → Fate × Bytes × Receiver
receive_loop time_string [] printed d = (listening, printed, d)
receive_loop time_string (failed ∷ reads) printed d = (stopped, printed, d)
receive_loop time_string (got now buffer ∷ reads) printed d =
    let announced = printed ++ alert_announced (c_string buffer) in
    elim (handle_client_alert time_string now (c_string buffer) d) [
      | none ↦ (fell, announced, d)
      | some (listing, d') ↦ receive_loop time_string reads (announced ++ listing) d'
    ]

-- What the machine answers to main. The address and the port of the socket are the arguments.
pub record Machine : Type 0 where
  pub left : ℕ → Leftover
  pub opens : Bool
  pub binds : Bytes → ℕ → Bool
  pub reads : List Read

-- The lists are set up before the arguments are looked at. The array for the address has 20 bytes.
unfoldable pub receiver_main :
    (Tm → Bytes) → Machine → List Bytes → Receiver → Option (Fate × Bytes × Receiver)
unfolding init receive_loop
receiver_main time_string machine [] d = do d' ← init machine.left d; some (stopped, [], d')
receiver_main time_string machine (ip ∷ []) d = do d' ← init machine.left d; some (stopped, [], d')
receiver_main time_string machine (ip ∷ port ∷ more) d = do
  d' ← init machine.left d
  my_ip ← within 20 ip
  some (
      if machine.opens
      then (if machine.binds my_ip (atoi port)
          then receive_loop time_string machine.reads [] d'
          else (stopped, [], d'))
      else (stopped, [], d'))
