-- ===== src/Tests/Dar.antt =====
-- One monitored path, and alerts that name it.
use premium.Base.{
  ◌+◌, pos, true, false, List, [], ◌∷◌, ◌++◌, ◌≡◌, refl, none, some, arith, ◌==◌, if◌then◌else◌,
  concat_map,
}
use premium.Text.{Bytes, codes, c_string}
use premium.Text.Token.{next_token, strtok}
use premium.Dar.Time.{Tm}
use premium.Dar.Alerts.{HijackAlert, new_hijack_alert, parse_hijack_alert, alert_line}
use premium.Dar.Chain.{node, Memory}
use premium.Dar.Chain.Shape.{Holds}
use premium.Dar.Paths.{PathStatus, new_path_status}
use premium.Dar.Paths.Refinement.{mark}
use premium.Dar.Paths.Show.{
  show_path_status_structured, show_all_paths, show_hijacked_paths, with_value, passing,
  show_hijacked_paths-passing,
}
use premium.Dar.Receiver.{Dar, Read, got, waiting, exited, handle_darshana_client_loop}
use premium.Dar.Receiver.Threshold.{handle_darshana_client_loop-threshold}
use premium.Dar.Receiver.Loop.{IsDar, mark_all, signals_due, loop-IsDar}
use premium.Tests.{sender_ip, receiver_ip, relay_a}

-- Noon of 1 June 2016.
abbrev pub noon : Tm
noon = record {
  tm_sec = pos 0;
  tm_min = pos 0;
  tm_hour = pos 12;
  tm_mday = pos 1;
  tm_mon = pos 5;
  tm_year = pos 116;
  tm_wday = pos 3;
  tm_yday = pos 152;
  tm_isdst = pos 1;
}

abbrev pub alert : HijackAlert
alert = new_hijack_alert noon (codes "lat") relay_a receiver_ip (codes "rtt")

abbrev pub line : Bytes
line = alert_line (codes "lat") relay_a receiver_ip (codes "rtt")

abbrev pub path : PathStatus
path = new_path_status sender_ip relay_a receiver_ip

-- A heap with the one path, at address 1.
abbrev pub one_path : Memory PathStatus
one_path = record { cell = λ p. if p == 1 then some (node path 0) else none; fresh = 2 }

pub one_path-Holds : Holds one_path 1 (path ∷ [])
one_path-Holds = record {
  allocated = omega arith;
  cells = (1, path) ∷ [];
  chain = (refl, omega arith, omega arith, refl, refl);
  same = refl;
}

abbrev pub no_alerts : Memory HijackAlert
no_alerts = record { cell = λ p. none; fresh = 1 }

-- The receiver with that path, no alerts, and SIGUSR1 from the second alert on.
abbrev pub dar : Dar
dar = record {
  alerts_history_head = 0;
  alerts = no_alerts;
  monitored_paths_list_head = 1;
  paths = one_path;
  max_dar_alerts = pos 2;
  signals = 0;
}

pub dar-IsDar : IsDar dar [] (path ∷ [])
dar-IsDar = record {
  alerts_held = record { allocated = omega arith; cells = []; chain = refl; same = refl };
  paths_held = one_path-Holds;
}

parsed : parse_hijack_alert noon line ≡ some alert
unfolding parse_hijack_alert next_token strtok
parsed = refl

pub read_parsed : parse_hijack_alert noon (c_string (line ++ 0 ∷ [])) ≡ some alert
unfolding parse_hijack_alert c_string next_token strtok
read_parsed = refl

abbrev pub reads : List Read
reads = got noon (line ++ 0 ∷ []) ∷ got noon (line ++ 0 ∷ []) ∷ []

loop-IsDar_example :
    (d : Dar) × (handle_darshana_client_loop true 0 reads dar ≡ (waiting, d))
    × IsDar d (alert ∷ alert ∷ []) (mark_all (alert ∷ alert ∷ []) (path ∷ []))
    × (d.signals ≡ 0 + signals_due 0 (pos 2) (alert ∷ alert ∷ []))
loop-IsDar_example =
    loop-IsDar reads (alert ∷ alert ∷ []) 0 dar [] (path ∷ []) dar-IsDar
      (read_parsed, (read_parsed, tt))

abbrev no_time : Tm → Bytes
no_time t = codes "-"

show_hijacked_paths-passing_example :
    (show_all_paths no_time 1 dar.paths
      ≡ some (concat_map (show_path_status_structured no_time) (path ∷ [])))
    × (show_hijacked_paths no_time 1 true dar.paths
        ≡ some (
            concat_map
              (show_path_status_structured no_time)
              (passing (with_value true) (path ∷ []))))
show_hijacked_paths-passing_example =
    show_hijacked_paths-passing no_time dar.paths 1 (path ∷ []) true one_path-Holds

handle_darshana_client_loop-threshold_example :
    ((d : Dar) × (handle_darshana_client_loop false 0 (got noon (line ++ 0 ∷ []) ∷ []) dar
        ≡ (waiting, d))
      × IsDar d (alert ∷ []) (mark_all (alert ∷ []) (path ∷ []))
      × (d.signals ≡ 0))
    × ((d : Dar) × (handle_darshana_client_loop false 0 reads dar ≡ (exited, d))
        × IsDar d (alert ∷ alert ∷ []) (mark alert (mark_all (alert ∷ []) (path ∷ [])))
        × (d.signals ≡ 0 + 1))
handle_darshana_client_loop-threshold_example =
    handle_darshana_client_loop-threshold (got noon (line ++ 0 ∷ []) ∷ []) (alert ∷ []) noon
      (line ++ 0 ∷ []) alert [] dar [] (path ∷ []) dar-IsDar (read_parsed, tt) read_parsed refl
