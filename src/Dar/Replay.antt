-- ===== src/Dar/Replay.antt =====
-- SCMultipath/dar/testing_wout_socket/parse_hijack.c: a program that takes its alerts from its
-- arguments, marks the test paths and prints what came of it. `none` is a crash; the pause after
-- each alert is left out.
pub mod Report
use premium.Base.{ℕ, ◌+◌, List, [], ◌∷◌, true, Option, some, ◌>>=◌}
use premium.Text.{Bytes, codes, strcat_all}
use premium.Dar.Time.{Tm}
use premium.Dar.Alerts.{parse_hijack_alert}
use premium.Dar.Chain.{null}
use premium.Dar.Paths.{analyse_hijack_alert}
use premium.Dar.Paths.Show.{init_test_path_values, show_all_paths, show_hijacked_paths}
use premium.Dar.History.{init_alerts_history_head, show_all_hijack_alerts}
use premium.Dar.Receiver.{Dar, save_hijack_alert}

unfoldable pub init_monitored_paths_head : Dar → Dar
init_monitored_paths_head d = record d { monitored_paths_list_head = null }

unfoldable pub init : Dar → Option Dar
unfolding init_alerts_history_head init_monitored_paths_head
init d = do
  let cleared = init_monitored_paths_head (init_alerts_history_head d)
  (head, m) ← init_test_path_values cleared.monitored_paths_list_head cleared.paths
  some (record cleared { monitored_paths_list_head = head; paths = m })

-- What init prints.
abbrev pub inserting : Bytes
inserting = codes "-> Inserting test paths...\n"

-- `for(i = 1; i < argc; i++)`; `clock i` is the time when argv[i] is parsed.
unfoldable pub replay_loop : (ℕ → Tm) → ℕ → List Bytes → Dar → Option Dar
replay_loop clock i [] d = some d
replay_loop clock i (arg ∷ argv) d = do
  alert_parsed ← parse_hijack_alert (clock i) arg
  d' ← save_hijack_alert alert_parsed d
  m ← analyse_hijack_alert d'.monitored_paths_list_head alert_parsed d'.paths
  replay_loop clock (i + 1) argv (record d' { paths = m })

abbrev pub dashes : Bytes
dashes = codes "-----------------------------------------------\n"

-- The output for the arguments from argv[1] on.
unfoldable pub replay_main : (Tm → Bytes) → (ℕ → Tm) → List Bytes → Dar → Option Bytes
replay_main time_string clock argv d = do
  d0 ← init d
  d' ← replay_loop clock 1 argv d0
  history ← show_all_hijack_alerts time_string d'
  all ← show_all_paths time_string d'.monitored_paths_list_head d'.paths
  hijacked ← show_hijacked_paths time_string d'.monitored_paths_list_head true d'.paths
  some (
      strcat_all (
        inserting
        ∷ codes "-> Show hijacking alerts\n"
        ∷ history
        ∷ codes "-> Show all path status\n"
        ∷ all
        ∷ dashes
        ∷ codes "Showing paths that are wer not hijacked yet!!!!\n"
        ∷ dashes
        ∷ hijacked
        ∷ []))
