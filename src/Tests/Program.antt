-- ===== src/Tests/Program.antt =====
-- The programs that send, over the session of Tests/Start.
use premium.Base.{ℕ, List, [], ◌∷◌, ◌++◌, ◌≡◌, refl, false, Option, some, arith, replicate}
use premium.Text.{Bytes, codes, c_string}
use premium.Sender.State.{State}
use premium.Sender.Flows.Setup.{Flow}
use premium.Apps.Stream.{contents}
use premium.Apps.Echo.{hi_message}
use premium.Apps.Echo.Exchange.{framed}
use premium.Apps.File.{machete_receive_data}
use premium.Apps.File.EndToEnd.{announced}
use premium.Apps.Program.{SenderArguments, Experiment, file_client_main, hi_client_main}
use premium.Apps.Program.Session.{
  argv_of, AreArguments, Answers, IsPlanned, whole_session, file_client_main-transfer,
}
use premium.Apps.Program.Experiments.{hi_client_main-framed}
use premium.Tests.{sender_ip, receiver_ip, relay_a, relay_b}
use premium.Tests.Apps.{any_name, stale, stale_fits, sends_all}
use premium.Tests.Receiver.{label}
use premium.Tests.Sender.{second_ip, interfaces, down, interfaces_cleaned}
use premium.Tests.Start.{environment, ready, rounds, no_alerts, no_alerts-IsDar}

abbrev args : SenderArguments
args = record {
  depspace_proxy_ip = codes "10.0.9.9";
  depspace_proxy_port = 7000;
  receiver_ip = receiver_ip;
  receiver_port = 8080;
  overlay_port = 9000;
  min_number_of_nodes = 2;
  use_stun_server = false;
  max_dar_alerts = 2;
  filename = codes "f";
}

args-AreArguments : AreArguments args
args-AreArguments = record {
  proxy_fits = omega arith;
  receiver_fits = omega arith;
  name_fits = omega arith;
  proxy_port = omega arith;
  port = omega arith;
  overlay = omega arith;
  nodes = omega arith;
  alerts = omega arith;
  plain = refl;
}

abbrev answers : Answers environment interfaces args 3 1
answers = record {
  label = label;
  node = relay_a;
  nodes = relay_b ∷ [];
  address = receiver_ip;
  addresses = [];
  source = sender_ip;
  sources = second_ip ∷ [];
  ready = ready;
  probes = refl;
  creates = rounds;
  removed = down;
  cleaned = interfaces_cleaned;
}

abbrev file : Bytes → Option Bytes
file name = some (codes "hello")

abbrev sizes : Bytes → ℕ
sizes name = 5

file_client_main-transfer_example :
    (s : State) × (fs : List Flow) × (file_client_main 3 2 environment no_alerts interfaces file
        sizes sends_all
        (argv_of (codes "1") args [])
      ≡ some (contents (announced (codes "f") 5 (codes "he") ∷ codes "llo" ∷ []), s))
    × IsPlanned answers fs
    × (s.effects ≡ whole_session args answers fs)
    × (machete_receive_data 6 any_name stale
          (codes "x")
          (announced (codes "f") 5 (codes "he") ∷ codes "llo" ∷ [])
        ≡ some (codes "f" ++ c_string (codes "x"), codes "hello"))
file_client_main-transfer_example =
    file_client_main-transfer environment interfaces args 3 1 no_alerts (codes "1") [] answers file
      sizes any_name stale (codes "x") (codes "he") (codes "llo" ∷ []) 6 sends_all args-AreArguments
      no_alerts-IsDar refl refl (omega arith) (omega arith) refl stale_fits (omega arith)
      (omega arith) refl (omega arith)

abbrev replies : List Bytes
replies = codes "HELLO" ∷ codes "HELLO" ∷ []

hi_client_main-framed_example :
    (s : State) × (fs : List Flow) × (hi_client_main 3 2 3 environment no_alerts interfaces
        (framed replies)
        (argv_of (codes "1") args [])
      ≡ some (framed (replicate 3 hi_message), s))
    × IsPlanned answers fs
    × (s.effects ≡ whole_session args answers fs)
hi_client_main-framed_example =
    hi_client_main-framed environment interfaces args 3 1 no_alerts (codes "1") [] answers replies
      args-AreArguments no_alerts-IsDar
      ((omega arith, omega arith), ((omega arith, omega arith), tt))

abbrev experiment : ℕ → Experiment
experiment i = record { env = environment; ifaddr = interfaces; pieces = framed replies }
