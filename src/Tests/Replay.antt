-- ===== src/Tests/Replay.antt =====
-- The test paths under two alerts, of which one names a path.
use premium.Base.{[], ◌∷◌, ◌≡◌, refl, none, some, pos, arith, map, List}
use premium.Text.{Bytes, codes}
use premium.Dar.Time.{Tm}
use premium.Dar.Receiver.{Dar}
use premium.Dar.Receiver.Loop.{IsDar}
use premium.Dar.Replay.{replay_main}
use premium.Dar.Replay.Report.{Fields, AreTokens, line_of, report, replay_main-report}
use premium.Tests.{receiver_ip, relay_a}
use premium.Tests.Dar.{noon}

abbrev fresh_dar : Dar
fresh_dar = record {
  alerts_history_head = 0;
  alerts = record { cell = λ p. none; fresh = 1 };
  monitored_paths_list_head = 0;
  paths = record { cell = λ p. none; fresh = 1 };
  max_dar_alerts = pos 0;
  signals = 0;
}

fresh_dar-IsDar : IsDar fresh_dar [] []
fresh_dar-IsDar = record {
  alerts_held = record { allocated = omega arith; cells = []; chain = refl; same = refl };
  paths_held = record { allocated = omega arith; cells = []; chain = refl; same = refl };
}

abbrev from_node : Bytes → Fields
from_node source_ip = record {
  alert_type = codes "lat";
  source_ip = source_ip;
  destination_ip = receiver_ip;
  metric_name = codes "rtt";
}

abbrev lines : List Fields
lines = from_node (codes "10.0.2.30") ∷ from_node relay_a ∷ []

named-AreTokens : AreTokens (from_node (codes "10.0.2.30"))
named-AreTokens = record {
  alert_type_token = (cc, omega arith);
  source_ip_token = (cc, omega arith);
  destination_ip_token = (cc, omega arith);
  metric_name_token = (cc, omega arith);
}

other-AreTokens : AreTokens (from_node relay_a)
other-AreTokens = record {
  alert_type_token = (cc, omega arith);
  source_ip_token = (cc, omega arith);
  destination_ip_token = (cc, omega arith);
  metric_name_token = (cc, omega arith);
}

abbrev shown : Tm → Bytes
shown t = codes "2016-06-01 12:00:00"

replay_main-report_example :
    replay_main shown (λ i. noon) (map line_of lines) fresh_dar
    ≡ some (report shown (λ i. noon) lines)
replay_main-report_example =
    replay_main-report shown (λ i. noon) lines fresh_dar fresh_dar-IsDar
      (named-AreTokens, (other-AreTokens, tt))
