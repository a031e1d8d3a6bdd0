-- ===== src/Dar/Replay/Report.antt =====
-- What the program prints for arguments that are lines of Darshana.
use premium.Base.{
  ℕ, ◌+◌, List, [], ◌∷◌, ◌++◌, ◌≡◌, refl, ap, ◌∙◌, true, Option, some, append_assoc, append-nil,
  bind_assoc, sym, ap₂, fun_ext, ◌>>=◌, All, map, concat_map,
}
use premium.Text.{Bytes, Token, codes, strcat_all}
use premium.Dar.Time.{Tm, get_current_time, duplicate_time_structure}
use premium.Dar.Alerts.{
  HijackAlert, new_hijack_alert, parse_hijack_alert, comma, alert_line,
  parse_hijack_alert-alert_line,
}
use premium.Dar.Chain.{null}
use premium.Dar.Chain.Shape.{Holds-nil}
use premium.Dar.Chain.Show.{show_nodes-Holds}
use premium.Dar.Paths.{PathStatus, analyse_hijack_alert}
use premium.Dar.Paths.Refinement.{mark}
use premium.Dar.Paths.Show.{
  show_path_status_structured, test_paths, init_test_path_values-Holds, with_value, passing,
  show_hijacked_paths-passing,
}
use premium.Dar.History.{
  init_alerts_history_head, show_hijack_alert_simple, show_all_nodes_h, show_all_hijack_alerts,
}
use premium.Dar.Receiver.{Dar, save_hijack_alert, handle_client_alert}
use premium.Dar.Receiver.Loop.{IsDar, handle_client_alert-IsDar, mark_all}
use premium.Dar.Replay.{
  init_monitored_paths_head, init, inserting, replay_loop, dashes, replay_main,
}

-- The four fields of a line that Darshana sends.
pub record Fields : Type 0 where
  pub alert_type : Bytes
  pub source_ip : Bytes
  pub destination_ip : Bytes
  pub metric_name : Bytes

abbrev pub line_of : Fields → Bytes
line_of f = alert_line f.alert_type f.source_ip f.destination_ip f.metric_name

pub record AreTokens (f : Fields) : Type 0 where
  pub alert_type_token : Token comma f.alert_type
  pub source_ip_token : Token comma f.source_ip
  pub destination_ip_token : Token comma f.destination_ip
  pub metric_name_token : Token comma f.metric_name

abbrev pub alert_of : Tm → Fields → HijackAlert
alert_of now f = new_hijack_alert now f.alert_type f.source_ip f.destination_ip f.metric_name

-- The alerts that the lines from the i-th on become.
abbrev pub alerts_of : (ℕ → Tm) → ℕ → List Fields → List HijackAlert
alerts_of clock i [] = []
alerts_of clock i (f ∷ fs) = alert_of (clock i) f ∷ alerts_of clock (i + 1) fs

-- Each line itself, behind its time.
abbrev pub timed_lines : (Tm → Bytes) → (ℕ → Tm) → ℕ → List Fields → Bytes
timed_lines time_string clock i [] = []
timed_lines time_string clock i (f ∷ fs) =
    (time_string (duplicate_time_structure (clock i)) ++ comma ∷ (line_of f ++ codes "\n"))
    ++ timed_lines time_string clock (i + 1) fs

parsed_line :
    (now : Tm) (f : Fields)
    → AreTokens f
    → parse_hijack_alert now (line_of f) ≡ some (alert_of now f)
parsed_line now f h =
    parse_hijack_alert-alert_line now f.alert_type f.source_ip f.destination_ip f.metric_name
      h.alert_type_token h.source_ip_token h.destination_ip_token h.metric_name_token

init-IsDar : (d : Dar) → IsDar d [] [] → (d' : Dar) × (init d ≡ some d') × IsDar d' [] test_paths
unfolding init init_alerts_history_head init_monitored_paths_head
init-IsDar d v =
    let (r, ran, held) = init_test_path_values-Holds d.paths null (Holds-nil v.paths_held) in
    (
      record d { alerts_history_head = null; monitored_paths_list_head = r.0; paths = r.1 },
      rw ran refl,
      record { alerts_held = Holds-nil v.alerts_held; paths_held = held },
    )

-- One round of the loop is what the receiver does with one alert.
replay_step :
    (clock : ℕ → Tm) (i : ℕ) (arg : Bytes) (argv : List Bytes) (d : Dar)
    → replay_loop clock i (arg ∷ argv) d
      ≡ (do d' ← handle_client_alert (clock i) arg d; replay_loop clock (i + 1) argv d')
unfolding replay_loop handle_client_alert
replay_step clock i arg argv d =
    let next : Dar → Option Dar = λ d'. replay_loop clock (i + 1) argv d' in
    sym (
      bind_assoc (parse_hijack_alert (clock i) arg) _ next
      ∙ ap (λ k. parse_hijack_alert (clock i) arg >>= k)
          (fun_ext (λ alert.
            bind_assoc (save_hijack_alert alert d) _ next
            ∙ ap (λ k. save_hijack_alert alert d >>= k)
                (fun_ext (λ d'.
                  bind_assoc (analyse_hijack_alert d'.monitored_paths_list_head alert d'.paths) _
                    next)))))

replay_loop-IsDar :
    (clock : ℕ → Tm) (fs : List Fields) (i : ℕ) (d : Dar) (alerts : List HijackAlert)
    (paths : List PathStatus)
    → IsDar d alerts paths
    → All AreTokens fs
    → (d' : Dar) × (replay_loop clock i (map line_of fs) d ≡ some d')
      × IsDar d' (alerts ++ alerts_of clock i fs) (mark_all (alerts_of clock i fs) paths)
replay_loop-IsDar clock [] i d alerts paths v h = (d, unfold replay_loop in refl, rw append-nil v)
replay_loop-IsDar clock (f ∷ fs) i d alerts paths v (t, h) =
    let alert = alert_of (clock i) f in
    let (d1, ran, kept, limit, still) =
      handle_client_alert-IsDar (clock i) (line_of f) alert d alerts paths v
        (parsed_line (clock i) f t) in
    let (d', looped, held) =
      replay_loop-IsDar clock fs (i + 1) d1 (alerts ++ alert ∷ []) (mark alert paths) kept h in
    (
      d',
      replay_step clock i (line_of f) (map line_of fs) d ∙ rw ran looped,
      rw (append_assoc alerts (alert ∷ []) (alerts_of clock (i + 1) fs)) at held,
    )

shown_lines :
    (time_string : Tm → Bytes) (clock : ℕ → Tm) (i : ℕ) (fs : List Fields)
    → concat_map (show_hijack_alert_simple time_string) (alerts_of clock i fs)
      ≡ timed_lines time_string clock i fs
unfolding show_hijack_alert_simple new_hijack_alert get_current_time
shown_lines time_string clock i [] = refl
shown_lines time_string clock i (f ∷ fs) =
    ap₂ (λ a b. a ++ b)
      (ap (λ text. time_string (duplicate_time_structure (clock i)) ++ comma ∷ text)
        (rw
          (
            append_assoc f.alert_type
                (comma ∷ (f.source_ip ++ comma ∷ (f.destination_ip ++ comma ∷ f.metric_name)))
                (codes "\n"),
            append_assoc f.source_ip (comma ∷ (f.destination_ip ++ comma ∷ f.metric_name))
                (codes "\n"),
            append_assoc f.destination_ip (comma ∷ f.metric_name) (codes "\n"),
          )
          refl))
      (shown_lines time_string clock (i + 1) fs)

-- What the program prints for the alerts of some lines.
abbrev pub report : (Tm → Bytes) → (ℕ → Tm) → List Fields → Bytes
report time_string clock fs =
    let paths = mark_all (alerts_of clock 1 fs) test_paths in
    let show = show_path_status_structured time_string in
    strcat_all (
      inserting
      ∷ codes "-> Show hijacking alerts\n"
      ∷ timed_lines time_string clock 1 fs
      ∷ codes "-> Show all path status\n"
      ∷ concat_map show paths
      ∷ dashes
      ∷ codes "Showing paths that are wer not hijacked yet!!!!\n"
      ∷ dashes
      ∷ concat_map show (passing (with_value true) paths)
      ∷ [])

-- For arguments that are lines of Darshana, each of four fields that are not empty and hold no
-- comma, the program prints each line as it came, behind its time, then the test paths as the alerts
-- have marked them in turn, and, under a heading that says they were not hijacked, those of them
-- that were.
pub replay_main-report :
    (time_string : Tm → Bytes) (clock : ℕ → Tm) (fs : List Fields) (d : Dar)
    → IsDar d [] []
    → All AreTokens fs
    → replay_main time_string clock (map line_of fs) d ≡ some (report time_string clock fs)
unfolding replay_main show_all_hijack_alerts show_all_nodes_h
replay_main-report time_string clock fs d v h =
    let (d0, ran, kept) = init-IsDar d v in
    let (d', looped, held) = replay_loop-IsDar clock fs 1 d0 [] test_paths kept h in
    let paths = mark_all (alerts_of clock 1 fs) test_paths in
    let (all, hijacked) =
      show_hijacked_paths-passing time_string d'.paths d'.monitored_paths_list_head paths true
        held.paths_held in
    rw
      (
        ran,
        looped,
        show_nodes-Holds (show_hijack_alert_simple time_string) d'.alerts d'.alerts_history_head
            (alerts_of clock 1 fs) held.alerts_held,
        all,
        hijacked,
        shown_lines time_string clock 1 fs,
      )
      refl
