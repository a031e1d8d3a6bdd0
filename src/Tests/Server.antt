-- ===== src/Tests/Server.antt =====
-- The server of the file transfer on the machine of Tests/Receiver.
use premium.Base.{ℕ, refl, ℤ, pos, negsuc, List, [], ◌∷◌, ◌++◌, ◌≡◌, ◌≢◌, some, arith, map, All}
use premium.Text.{Bytes, codes, c_string}
use premium.Manager.Register.{interface_list}
use premium.Receiver.{teardown_receiver}
use premium.Receiver.Registration.{lines, device_tuple}
use premium.Apps.File.{machete_receive_data, receive_payload}
use premium.Apps.Stream.{recv, le_bytes, le_value}
use premium.Apps.File.EndToEnd.{announced}
use premium.Apps.Server.{arrives, Listener, file_server_main}
use premium.Apps.Server.Accepting.{server_argv, accepting, started_with, file_server_main-threads}
use premium.Tests.{relay_a, relay_b, relay_a-IsAddress, relay_b-IsAddress}
use premium.Tests.Apps.{any_name, stale}
use premium.Tests.Receiver.{interfaces, have_addresses, two_local, same_address}

abbrev listener : Listener
listener = record {
  stun = same_address;
  interfaces = interfaces;
  reserved_ip = [];
  accepted = [];
  welcome_socket_fd = 3;
}

-- A sender and a failure of accept.
abbrev fds : List ℤ
fds = pos 4 ∷ negsuc 0 ∷ []

fds_not_zero : All (λ fd. fd ≢ pos 0) fds
fds_not_zero = ((λ e. cc), ((λ e. cc), tt))

abbrev connection : ℕ → List Bytes
connection fd = announced (codes "f") 5 (codes "he") ∷ codes "llo" ∷ []

-- The file of the sender, and the empty one that the thread of the failure leaves.
abbrev files : ℤ → Bytes × Bytes
files (pos fd) = (codes "fx", codes "hello")
files (negsuc n) = (codes "x", [])

fds_received :
    All
      (λ fd.
        machete_receive_data 6 any_name stale (codes "x") (arrives connection fd) ≡ some (files fd))
      fds
unfolding machete_receive_data receive_payload recv le_bytes le_value c_string
fds_received = (refl, (refl, tt))

abbrev argv : List Bytes
argv = server_argv (codes "0") (codes "10.0.9.9") 7000 8080 []

file_server_main-threads_example :
    (commands : Bytes) × (file_server_main 6 any_name stale
        (codes "x")
        connection
        (accepting listener fds)
        argv
      ≡ some (record {
        started = started_with commands relay_a 8080;
        threads = map files fds;
        torn_down = [];
      }))
    × (file_server_main 6 any_name stale
          (codes "x")
          connection
          (accepting listener (fds ++ pos 0 ∷ pos 5 ∷ []))
          argv
        ≡ some (record {
          started = started_with commands relay_a 8080;
          threads = map files fds;
          torn_down = teardown_receiver 3;
        }))
    × (lines commands
        ≡ (codes "inp " ++ device_tuple relay_a 2)
          ∷ (codes "inp " ++ interface_list (relay_a ∷ relay_b ∷ []))
          ∷ (codes "out " ++ device_tuple relay_a 2)
          ∷ (codes "out " ++ interface_list (relay_a ∷ relay_b ∷ []))
          ∷ [])
file_server_main-threads_example =
    file_server_main-threads listener 6 any_name stale (codes "x") connection (codes "0")
      (codes "10.0.9.9") 7000 8080 [] relay_a (relay_b ∷ []) fds (pos 5 ∷ []) files (omega arith)
      (omega arith) have_addresses two_local (omega arith)
      (relay_a-IsAddress, (relay_b-IsAddress, tt)) (omega arith) fds_not_zero fds_received
