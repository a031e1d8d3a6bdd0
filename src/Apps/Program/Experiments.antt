-- ===== src/Apps/Program/Experiments.antt =====
-- The echo programs of the sender: the loop without a bound of hi_client.c, and the experiments of
-- hi_client_eval.c.
use premium.Base.{
  ℕ, suc, ◌+◌, ◌<◌, ◌≤◌, ◌^◌, List, [], ◌∷◌, ◌++◌, ◌≡◌, refl, ap, ◌∙◌, false, Option, some, arith,
  ◌==◌, ◌>>=◌, ==_ne, if◌then◌else◌, length, replicate, map, All,
}
use premium.Text.{Bytes}
use premium.Dar.Receiver.{Dar}
use premium.Dar.Receiver.Loop.{IsDar}
use premium.Sender.State.{system, State}
use premium.Sender.Interfaces.{IfAddrs}
use premium.Sender.Flows.Setup.{Flow}
use premium.Sender.Start.{Environment}
use premium.Apps.Stream.{recv, le_bytes, le_bytes-length, recv_integer, recv_integer-le_bytes}
use premium.Apps.Echo.{hi_message}
use premium.Apps.Echo.Exchange.{framed, recv-whole}
use premium.Apps.Program.{SenderArguments, Experiment, clean_up, hello_loop, hi_client_main}
use premium.Apps.Program.Session.{
  argv_of, AreArguments, sender_arguments-argv_of, Answers, IsPlanned, whole_session,
  with_session_lem,
}

-- An answer that a client goes on after: not empty, with a size that fits a long.
abbrev pub IsAnswer : Bytes → Type 0
IsAnswer m = (0 < length m) × (length m < 2 ^ 63)

abbrev loop_round : ℕ → Bytes × List Bytes → Bytes × List Bytes → Option (List Bytes)
loop_round fuel r q =
    let more : Option (List Bytes) =
      if length r.0 == 0
      then some []
      else if length q.0 == 0
      then some []
      else hello_loop fuel q.1 in
    do sent ← more; some (le_bytes 8 (length hi_message) ∷ hi_message ∷ sent)

loop_rounds :
    (fuel : ℕ) (pieces : List Bytes) (r q : Bytes × List Bytes)
    → recv 8 pieces ≡ r
    → recv (recv_integer 8 r.0) r.1 ≡ q
    → hello_loop (suc fuel) pieces ≡ loop_round fuel r q
unfolding hello_loop
loop_rounds fuel pieces r q e1 e2 =
    ap (λ t. loop_round fuel t (recv (recv_integer 8 (t.0)) (t.1))) e1 ∙ ap (loop_round fuel r) e2

-- A client with one round of fuel more than the server has answers ends, and has sent one hello more.
hello_loop-framed :
    (answers : List Bytes)
    → All IsAnswer answers
    → hello_loop (suc (length answers)) (framed answers)
      ≡ some (framed (replicate (suc (length answers)) hi_message))
hello_loop-framed [] h = unfold hello_loop recv in refl
hello_loop-framed (m ∷ answers) ((pos, fits), hs) =
    let k = length m in
    let later = framed answers in
    let first = recv-whole 8 (le_bytes 8 k) (m ∷ later) (omega (arith, le_bytes-length 8 k)) in
    let read : recv_integer 8 (le_bytes 8 k) ≡ k = recv_integer-le_bytes 8 k (omega arith) in
    let second = recv-whole k m later (omega arith) in
    let some_size : (length (le_bytes 8 k) == 0) ≡ false =
      ==_ne (length (le_bytes 8 k)) 0 (omega (arith, le_bytes-length 8 k)) in
    let some_text : (k == 0) ≡ false = ==_ne k 0 (omega arith) in
    loop_rounds (suc (length answers)) (le_bytes 8 k ∷ m ∷ later) (le_bytes 8 k, m ∷ later)
      (m, later) first (ap (λ i. recv i (m ∷ later)) read ∙ second)
    ∙ rw (some_size, some_text, hello_loop-framed answers hs) refl

-- hi_client with arguments that fit, for a session in which everything answers and each source that is
-- missing can be created as an alias, without a STUN server, against a server that sends a number of answers, each with its size and by itself, and then closes: with one round of fuel
-- more than answers it sends one hello more than there are answers, tears everything down for the
-- flows that it has set up, and returns.
pub hi_client_main-framed :
    (env : Environment) (ifaddr : List IfAddrs) (args : SenderArguments)
    (probe_fuel source_fuel : ℕ) (dar : Dar) (mode : Bytes) (more : List Bytes)
    (h : Answers env ifaddr args probe_fuel source_fuel) (answers : List Bytes)
    → AreArguments args
    → IsDar dar [] []
    → All IsAnswer answers
    → (s : State) × (fs : List Flow) × (hi_client_main probe_fuel
          (suc source_fuel)
          (suc (length answers))
          env
          dar
          ifaddr
          (framed answers)
          (argv_of mode args more)
        ≡ some (framed (replicate (suc (length answers)) hi_message), s))
      × IsPlanned h fs
      × (s.effects ≡ whole_session args h fs)
unfolding hi_client_main
hi_client_main-framed env ifaddr args probe_fuel source_fuel dar mode more h answers fit v good =
    let (s, fs, ran, planned, did, emptied) =
      with_session_lem env ifaddr args probe_fuel source_fuel dar
        (framed (replicate (suc (length answers)) hi_message)) h v in
    (
      s,
      fs,
      rw (sender_arguments-argv_of mode args more fit, hello_loop-framed answers good) ran,
      planned,
      did,
    )

abbrev Hellos : ℕ → List Bytes → Type 0
Hellos n sent = (k : ℕ) × (sent ≡ framed (replicate k hi_message)) × (k ≤ n)

module _ (experiment : ℕ → Experiment) (args : SenderArguments) (probe_fuel source_fuel : ℕ)
    (h : (i : ℕ)
      → Answers (experiment i).env (experiment i).ifaddr args probe_fuel source_fuel) where
  -- What experiments did from the i-th on: each sent one to three hellos and nothing else, set up its
  -- planned flows, tore them down, and cleaned up.
  abbrev pub Did : ℕ → List (List Bytes × State) → Type 0
  Did i [] = Unit
  Did i ((sent, s) ∷ rs) =
      ((k : ℕ) × (sent ≡ framed (replicate k hi_message)) × (1 ≤ k) × (k ≤ 3))
      × ((fs : List Flow) × IsPlanned (h i) fs
          × (s.effects ≡ whole_session args (h i) fs ++ map system clean_up))
      × Did (i + 1) rs
