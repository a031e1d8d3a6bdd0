-- ===== src/Apps/Server/Accepting.antt =====
-- A receiving program from its arguments to the threads of its senders.
use premium.Base.{
  ℕ, zero, suc, ◌≤◌, ◌<◌, ℤ, pos, negsuc, List, [], ◌∷◌, ◌++◌, ◌≡◌, ◌≢◌, refl, ap, ◌∙◌, Bool, true,
  false, some, arith, length, map, All, if◌then◌else◌, ◌>>=◌, Option,
}
use premium.Text.{Bytes, codes}
use premium.Text.Decimal.{decimal, decimal-length, atoi, atoi-decimal}
use premium.Manager.Register.{within_fits, interface_list}
use premium.Manager.Nodes.{IsAddress}
use premium.Sender.State.{darshana_server_port}
use premium.Sender.Interfaces.Local.{local_addresses}
use premium.Receiver.{
  Action, send_to_manager, create_darshana_server, listen_on, accept_loop, setup_receiver,
  teardown_receiver, run_darshana_server,
}
use premium.Receiver.Registration.{lines, device_tuple, IsShort}
use premium.Receiver.Setup.{HasAddresses, setup_receiver-local_addresses}
use premium.Apps.File.{machete_receive_data}
use premium.Apps.Server.{
  receiver_arguments, accepting_ends, Listener, run_threads, arrives, serve_with, file_server_main,
}

zero_read : atoi (codes "0") ≡ 0
unfolding atoi
zero_read = refl

-- What accept returned for a thread is handed to: all up to the first 0, which ends the loop.
accepted_before :
    (fds : List ℤ) (later : List ℤ)
    → All (λ fd. fd ≢ pos 0) fds
    → (accept_loop (fds ++ pos 0 ∷ later) ≡ fds)
      × (accepting_ends (fds ++ pos 0 ∷ later) ≡ true)
      × (accept_loop fds ≡ fds)
      × (accepting_ends fds ≡ false)
unfolding accept_loop
accepted_before [] later h = (refl, refl, refl, refl)
accepted_before (pos zero ∷ fds) later (h, hs) = absurd (h refl)
accepted_before (pos (suc n) ∷ fds) later (h, hs) =
    let (e1, e2, e3, e4) = accepted_before fds later hs in
    (ap (λ l. pos (suc n) ∷ l) e1, e2, ap (λ l. pos (suc n) ∷ l) e3, e4)
accepted_before (negsuc n ∷ fds) later (h, hs) =
    let (e1, e2, e3, e4) = accepted_before fds later hs in
    (ap (λ l. negsuc n ∷ l) e1, e2, ap (λ l. negsuc n ∷ l) e3, e4)

-- The arguments of a program without a STUN server, as texts.
abbrev pub server_argv : Bytes → Bytes → ℕ → ℕ → List Bytes → List Bytes
server_argv mode proxy_ip proxy_port port more =
    mode ∷ proxy_ip ∷ decimal proxy_port ∷ decimal port ∷ codes "0" ∷ more

abbrev pub accepting : Listener → List ℤ → Listener
accepting listener fds = record listener { accepted = fds }

-- What a program does before it accepts.
abbrev pub started_with : Bytes → Bytes → ℕ → List Action
started_with commands ip port =
    send_to_manager commands
    ∷ create_darshana_server (run_darshana_server ip darshana_server_port)
    ∷ listen_on ip port
    ∷ []

serve_with-started :
    {A : Type 0} (serve : ℤ → Option A) (listener : Listener) (mode proxy_ip : Bytes)
    (proxy_port port : ℕ) (more : List Bytes) (started : List Action) (fds : List ℤ)
    (threads : Option (List A))
    → length proxy_ip < 20
    → port < 65536
    → setup_receiver listener.stun listener.interfaces port false listener.reserved_ip
      ≡ some started
    → run_threads serve (accept_loop fds) ≡ threads
    → serve_with serve (accepting listener fds) (server_argv mode proxy_ip proxy_port port more)
      ≡ (do
        ended ← threads
        some (record {
          started = started;
          threads = ended;
          torn_down =
              if accepting_ends fds then teardown_receiver listener.welcome_socket_fd else [];
        }))
unfolding serve_with receiver_arguments
serve_with-started serve listener mode proxy_ip proxy_port port more started fds threads fits low
      ran ended =
    rw
      (
        within_fits 20 proxy_ip fits,
        within_fits 20 (decimal port) (omega (arith, decimal-length port low)),
        zero_read,
        atoi-decimal port (omega arith),
        ran,
        ended,
      )
      refl

-- Threads that each come to their end.
run_threads-ended :
    {A : Type 0} (serve : ℤ → Option A) (ends : ℤ → A) (fds : List ℤ)
    → All (λ fd. serve fd ≡ some (ends fd)) fds
    → run_threads serve fds ≡ some (map ends fds)
unfolding run_threads
run_threads-ended serve ends [] h = refl
run_threads-ended serve ends (fd ∷ fds) (h, hs) = rw (h, run_threads-ended serve ends fds hs) refl

-- file_server with an address of the proxy that fits its array, a port, and no STUN server, on a
-- machine whose interfaces have addresses, up to 13 of up to 15 bytes: it registers all of them, starts
-- Darshana's server and listens on the first. For whatever accept returns but 0, a failure as well,
-- from which nothing is received, a thread of its own receives a file, in order; as long as accept does
-- not return 0 it is not torn down, and if it does, the threads are those for what came before, and the
-- teardown follows. Each thread comes to its end, with a file that it could create, before accept
-- returns again.
pub file_server_main-threads :
    (listener : Listener) (fuel : ℕ) (creates : Bytes → Bool) (stale : ℕ → Bytes) (behind : Bytes)
    (connection : ℕ → List Bytes) (mode proxy_ip : Bytes) (proxy_port port : ℕ) (more : List Bytes)
    (ip : Bytes) (ips : List Bytes) (fds later : List ℤ) (files : ℤ → Bytes × Bytes)
    → length proxy_ip < 20
    → port < 65536
    → HasAddresses listener.interfaces
    → local_addresses listener.interfaces ≡ ip ∷ ips
    → length (ip ∷ ips) ≤ 13
    → All IsAddress (ip ∷ ips)
    → All IsShort (ip ∷ ips)
    → All (λ fd. fd ≢ pos 0) fds
    → All
        (λ fd.
          machete_receive_data fuel creates stale behind (arrives connection fd) ≡ some (files fd))
        fds
    → let main = λ (l : List ℤ).
      file_server_main fuel creates stale behind connection
        (accepting listener l)
        (server_argv mode proxy_ip proxy_port port more) in
      (commands : Bytes) × (main fds
        ≡ some (record {
          started = started_with commands ip port;
          threads = map files fds;
          torn_down = [];
        }))
      × (main (fds ++ pos 0 ∷ later)
          ≡ some (record {
            started = started_with commands ip port;
            threads = map files fds;
            torn_down = teardown_receiver listener.welcome_socket_fd;
          }))
      × (lines commands
          ≡ (codes "inp " ++ device_tuple ip (length (ip ∷ ips)))
            ∷ (codes "inp " ++ interface_list (ip ∷ ips))
            ∷ (codes "out " ++ device_tuple ip (length (ip ∷ ips)))
            ∷ (codes "out " ++ interface_list (ip ∷ ips))
            ∷ [])
unfolding file_server_main
file_server_main-threads listener fuel creates stale behind connection mode proxy_ip proxy_port port
      more ip ips fds later files fits low have local few ok short sockets received =
    let serve : ℤ → Option (Bytes × Bytes) =
      λ fd. machete_receive_data fuel creates stale behind (arrives connection fd) in
    let (commands, ran, registered, sized) =
      setup_receiver-local_addresses listener.stun listener.interfaces port listener.reserved_ip ip
        ips have local few ok short in
    let (handed, ends, all, goes_on) = accepted_before fds later sockets in
    let ended = run_threads-ended serve files fds received in
    let run = λ (l : List ℤ) (e : accept_loop l ≡ fds).
      serve_with-started serve listener mode proxy_ip proxy_port port more
        (started_with commands ip port) l (some (map files fds)) fits low ran
        (ap (run_threads serve) e ∙ ended) in
    (
      commands,
      run fds all ∙ rw goes_on refl,
      run (fds ++ pos 0 ∷ later) handed ∙ rw ends refl,
      registered,
    )
