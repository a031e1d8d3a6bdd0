-- ===== src/Apps/Server.antt =====
-- The programs that receive: main of SCMultipath/file_server.c, hi_server.c and hi_server_eval.c, over
-- setup_receiver and teardown_receiver. `none` is a read through NULL, a write past an array, or a
-- thread that ends the process.
pub mod Accepting
use premium.Base.{
  ℕ, zero, suc, ℤ, pos, negsuc, List, [], ◌∷◌, Bool, true, false, not, Option, none, some, ◌==◌,
  if◌then◌else◌, ◌>>=◌, map,
}
use premium.Text.{Bytes}
use premium.Text.Decimal.{atoi}
use premium.Manager.Register.{within}
use premium.Sender.Interfaces.{IfAddrs}
use premium.Receiver.{Action, accept_loop, setup_receiver, teardown_receiver}
use premium.Apps.File.{machete_receive_data}
use premium.Apps.Echo.{echo_hello_message}

pub record ReceiverArguments : Type 0 where
  pub depspace_proxy_ip : Bytes
  pub depspace_proxy_port : ℕ
  pub receiver_port : ℕ
  pub use_stun_public_ip : Bool

-- argv without the program's name. The address and the text of the port are copied to arrays of 20
-- bytes; fewer than five arguments are a read through NULL.
unfoldable pub receiver_arguments : List Bytes → Option ReceiverArguments
receiver_arguments (mode ∷ proxy_ip ∷ proxy_port ∷ port ∷ stun ∷ more) = do
  depspace_proxy_ip ← within 20 proxy_ip
  receiver_port ← within 20 port
  some (record {
    depspace_proxy_ip = depspace_proxy_ip;
    depspace_proxy_port = atoi proxy_port;
    receiver_port = atoi port;
    use_stun_public_ip = not (atoi stun == 0);
  })
receiver_arguments argv = none

-- Whether the loop that accepts senders ends: at the descriptor 0 only.
abbrev pub accepting_ends : List ℤ → Bool
accepting_ends [] = false
accepting_ends (pos zero ∷ later) = true
accepting_ends (pos (suc fd) ∷ later) = accepting_ends later
accepting_ends (negsuc n ∷ later) = accepting_ends later

-- What a receiving program meets: the STUN server, its interfaces, what its array held, what accept
-- returns, the descriptor of its socket.
pub record Listener : Type 0 where
  pub stun : Bytes → Bytes
  pub interfaces : List IfAddrs
  pub reserved_ip : Bytes
  pub accepted : List ℤ
  pub welcome_socket_fd : ℕ

-- The threads, each of which comes to its end before accept returns again. One that ends the process,
-- or does not end within its fuel, is `none`.
unfoldable pub run_threads {ℓ} : {A : Type ℓ} → (ℤ → Option A) → List ℤ → Option (List A)
run_threads serve [] = some []
run_threads serve (fd ∷ fds) = do
  ended ← serve fd
  rest ← run_threads serve fds
  some (ended ∷ rest)

-- What recv returns for a descriptor: what was sent to it, and nothing for that of a failed accept.
abbrev pub arrives : (ℕ → List Bytes) → ℤ → List Bytes
arrives connection (pos fd) = connection fd
arrives connection (negsuc n) = []

-- What it did before it accepted, what each of its threads came to, and its teardown, if it gets
-- there.
pub record Served {ℓ} (A : Type ℓ) : Type ℓ where
  pub started : List Action
  pub threads : List A
  pub torn_down : List Action

-- `serve` is what the thread does for the descriptor that it is handed.
unfoldable pub serve_with {ℓ} :
    {A : Type ℓ} → (ℤ → Option A) → Listener → List Bytes → Option (Served A)
unfolding receiver_arguments run_threads
serve_with serve listener argv = do
  args ← receiver_arguments argv
  started ←
      setup_receiver listener.stun listener.interfaces args.receiver_port args.use_stun_public_ip
        listener.reserved_ip
  threads ← run_threads serve (accept_loop listener.accepted)
  some (record {
    started = started;
    threads = threads;
    torn_down =
        if accepting_ends listener.accepted
        then teardown_receiver listener.welcome_socket_fd
        else [];
  })

-- `connection` is what arrives at a descriptor, in pieces; the other arguments are those of
-- machete_receive_data.
unfoldable pub file_server_main :
    ℕ
    → (Bytes → Bool)
    → (ℕ → Bytes)
    → Bytes
    → (ℕ → List Bytes)
    → Listener
    → List Bytes
    → Option (Served (Bytes × Bytes))
unfolding serve_with machete_receive_data
file_server_main fuel creates stale behind connection listener argv =
    serve_with (λ fd. machete_receive_data fuel creates stale behind (arrives connection fd))
      listener argv

-- hi_server.c and hi_server_eval.c have the same text, but for their DEBUG output.
unfoldable pub hi_server_main :
    ℕ
    → (ℕ → ℕ)
    → (ℕ → Bytes)
    → Bytes
    → Bytes
    → (ℕ → List Bytes)
    → Listener
    → List Bytes
    → Option (Served (List Bytes))
unfolding serve_with echo_hello_message
hi_server_main fuel toupper left behind size connection listener argv =
    serve_with (λ fd. echo_hello_message fuel toupper left behind size (arrives connection fd))
      listener argv
