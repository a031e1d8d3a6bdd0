-- ===== src/Tests/Standalone.antt =====
-- The stand-alone receiver of alerts, started with an address and a port.
use premium.Base.{[], ◌∷◌, ◌++◌, ◌≡◌, refl, Bool, true, false, none, some, inl, inr, arith, All}
use premium.Text.{Bytes, codes, c_string}
use premium.Text.Decimal.{decimal}
use premium.Dar.Time.{Tm}
use premium.Dar.Chain.{Memory}
use premium.Dar.Receiver.{got}
use premium.Standalone.Paths.{PathStatus, new_path_status, test_paths}
use premium.Standalone.Show.{Clean, AnySpoilt}
use premium.Standalone.Receiver.{Receiver, Machine, listening, fell, alert_announced, receiver_main}
use premium.Standalone.Receiver.Loop.{
  IsReceiver, report, mark_all, receiver_main-report, receiver_main-AnySpoilt,
}
use premium.Tests.{sender_ip}
use premium.Tests.Dar.{noon, alert, line, no_alerts, reads, read_parsed}

abbrev no_paths : Memory PathStatus
no_paths = record { cell = λ p. none; fresh = 1 }

abbrev empty : Receiver
empty = record {
  alerts_history_head = 0;
  alerts = no_alerts;
  monitored_paths_list_head = 0;
  paths = no_paths;
}

empty-IsReceiver : IsReceiver empty [] []
empty-IsReceiver = record {
  alerts_held = record { allocated = omega arith; cells = []; chain = refl; same = refl };
  paths_held = record { allocated = omega arith; cells = []; chain = refl; same = refl };
}

-- malloc leaves zero bytes, or others in the last time pointer.
abbrev machine : Bool → Machine
machine zero_bytes = record {
  left = λ n. record { previous_zero = true; last_zero = zero_bytes };
  opens = true;
  binds = λ ip port. true;
  reads = reads;
}

abbrev dashes : Tm → Bytes
dashes t = codes "-"

test_paths-Clean : All Clean (test_paths (λ n. record { previous_zero = true; last_zero = true }))
unfolding new_path_status
test_paths-Clean = ((tt, tt), ((tt, tt), ((tt, tt), tt)))

test_paths-AnySpoilt :
    AnySpoilt (test_paths (λ n. record { previous_zero = true; last_zero = false }))
unfolding new_path_status
test_paths-AnySpoilt = inl (inr refl)

receiver_main-report_example :
    (d : Receiver) × (text : Bytes) × (report dashes reads
        (alert ∷ alert ∷ [])
        (test_paths (machine true).left)
      ≡ some text)
    × (receiver_main dashes (machine true) (sender_ip ∷ decimal 10101 ∷ []) empty
        ≡ some (listening, text, d))
    × IsReceiver d
        (alert ∷ alert ∷ [])
        (mark_all (alert ∷ alert ∷ []) (test_paths (machine true).left))
receiver_main-report_example =
    receiver_main-report dashes (machine true) sender_ip 10101 [] empty (alert ∷ alert ∷ [])
      empty-IsReceiver (omega arith) (omega arith) refl refl test_paths-Clean
      (read_parsed, (read_parsed, tt))

receiver_main-AnySpoilt_example :
    (d : Receiver) × (receiver_main dashes (machine false) (sender_ip ∷ decimal 10101 ∷ []) empty
      ≡ some (fell, alert_announced (c_string (line ++ 0 ∷ [])), d))
receiver_main-AnySpoilt_example =
    receiver_main-AnySpoilt dashes (machine false) sender_ip 10101 [] empty noon (line ++ 0 ∷ [])
      alert (got noon (line ++ 0 ∷ []) ∷ []) empty-IsReceiver (omega arith) (omega arith) refl refl
      test_paths-AnySpoilt refl read_parsed
