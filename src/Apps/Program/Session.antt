-- ===== src/Apps/Program/Session.antt =====
-- A program's session when everything that it asks answers, and the file that it sends.
use premium.Base.{
  ℕ, suc, ◌+◌, ◌*◌, ◌≤◌, ◌<◌, ◌^◌, pos, List, [], ◌∷◌, ◌++◌, ◌≡◌, refl, ap, ◌∙◌, sym, Bool, true,
  false, Option, some, arith, length, All,
}
use premium.Text.{Bytes, codes, c_string, NoNul}
use premium.Text.Decimal.{decimal, atoi, atoi-decimal}
use premium.Manager.Register.{within_fits}
use premium.Dar.Receiver.{Dar}
use premium.Dar.Receiver.Loop.{IsDar}
use premium.Sender.State.{Effect, State, dar_port_number}
use premium.Sender.Interfaces.{IfAddrs, clean_virtual_interfaces}
use premium.Sender.Interfaces.Local.{local_addresses}
use premium.Sender.Flows.Order.{grid}
use premium.Sender.Flows.Setup.{Flow, FlowsAt}
use premium.Sender.Session.{SetupSenderArg}
use premium.Sender.Session.Reaction.{teardown_effects, teardown_sender_lem}
use premium.Sender.Start.{Environment, machete_arguments, machete_setup_sender_spec}
use premium.Sender.Start.Plan.{plan}
use premium.Sender.Start.Ready.{IsReady}
use premium.Sender.Start.Run.{setup_effects, setup_sender_lem}
use premium.Apps.Stream.{contents, IsPiece}
use premium.Apps.File.{machete_receive_data}
use premium.Apps.File.EndToEnd.{announced, file_transfer}
use premium.Apps.Program.{SenderArguments, sender_arguments, with_session, file_client_main}

-- The arguments of a program without a STUN server, as texts.
abbrev pub argv_of : Bytes → SenderArguments → List Bytes → List Bytes
argv_of mode args more =
    mode
    ∷ args.depspace_proxy_ip
    ∷ decimal args.depspace_proxy_port
    ∷ args.receiver_ip
    ∷ decimal args.receiver_port
    ∷ decimal args.overlay_port
    ∷ decimal args.min_number_of_nodes
    ∷ codes "0"
    ∷ decimal args.max_dar_alerts
    ∷ args.filename
    ∷ more

-- Arguments that fit the arrays and the C integers.
pub record AreArguments (args : SenderArguments) : Type 0 where
  pub proxy_fits : length args.depspace_proxy_ip < 20
  pub receiver_fits : length args.receiver_ip < 20
  pub name_fits : length args.filename < 20
  pub proxy_port : args.depspace_proxy_port < 10 ^ 10
  pub port : args.receiver_port < 10 ^ 10
  pub overlay : args.overlay_port < 10 ^ 10
  pub nodes : args.min_number_of_nodes < 10 ^ 10
  pub alerts : args.max_dar_alerts < 10 ^ 10
  pub plain : args.use_stun_server ≡ false

zero_read : atoi (codes "0") ≡ 0
unfolding atoi
zero_read = refl

pub sender_arguments-argv_of :
    (mode : Bytes) (args : SenderArguments) (more : List Bytes)
    → AreArguments args
    → sender_arguments (argv_of mode args more) ≡ some args
unfolding sender_arguments
sender_arguments-argv_of mode args more h =
    rw
      (
        within_fits 20 args.depspace_proxy_ip h.proxy_fits,
        within_fits 20 args.receiver_ip h.receiver_fits,
        within_fits 20 args.filename h.name_fits,
        zero_read,
        atoi-decimal args.depspace_proxy_port h.proxy_port,
        atoi-decimal args.receiver_port h.port,
        atoi-decimal args.overlay_port h.overlay,
        atoi-decimal args.min_number_of_nodes h.nodes,
        atoi-decimal args.max_dar_alerts h.alerts,
      )
      (ap (λ stun. some (record args { use_stun_server = stun })) (sym h.plain))

abbrev pub session_arguments : SenderArguments → SetupSenderArg
session_arguments args =
    machete_arguments args.receiver_ip args.receiver_port args.overlay_port args.min_number_of_nodes
      args.use_stun_server (pos args.max_dar_alerts)

-- What a sender's session meets when everything answers, with enough fuel, and what getifaddrs
-- returns at its end.
pub record Answers (env : Environment) (ifaddr : List IfAddrs) (args : SenderArguments)
    (probe_fuel source_fuel : ℕ) : Type 0 where
  pub label : Bytes
  pub node : Bytes
  pub nodes : List Bytes
  pub address : Bytes
  pub addresses : List Bytes
  pub source : Bytes
  pub sources : List Bytes
  pub ready : IsReady env (session_arguments args) label node nodes address addresses source sources
  pub probes : probe_fuel ≡ length (node ∷ nodes) + 1
  pub creates :
      length (node ∷ nodes)
      ≤ length (local_addresses env.interfaces_before) * length (address ∷ addresses) + source_fuel
  pub removed : List Bytes
  pub cleaned : clean_virtual_interfaces ifaddr ≡ some removed

-- The planned flows of such a session, and what it does from its setup to its teardown.
abbrev pub IsPlanned :
    {env : Environment} {ifaddr : List IfAddrs} {args : SenderArguments}
    {probe_fuel source_fuel : ℕ}
    → Answers env ifaddr args probe_fuel source_fuel
    → List Flow
    → Type 0
IsPlanned h fs =
    FlowsAt (plan (h.node ∷ h.nodes) (h.address ∷ h.addresses) (h.source ∷ h.sources))
      (h.source ∷ h.sources)
      (grid (length (h.address ∷ h.addresses)) 0 (length (h.source ∷ h.sources))) fs

abbrev pub whole_session :
    {env : Environment} {ifaddr : List IfAddrs} (args : SenderArguments)
    {probe_fuel source_fuel : ℕ}
    → Answers env ifaddr args probe_fuel source_fuel
    → List Flow
    → List Effect
whole_session args h fs =
    setup_effects (session_arguments args) h.source fs
    ++ teardown_effects (session_arguments args) h.source dar_port_number fs h.removed

-- The session comes to its end whatever is sent over it.
pub with_session_lem {ℓ} :
    {A : Type ℓ} (env : Environment) (ifaddr : List IfAddrs) (args : SenderArguments)
    (probe_fuel source_fuel : ℕ) (dar : Dar) (sent : A)
    (h : Answers env ifaddr args probe_fuel source_fuel)
    → IsDar dar [] []
    → (s : State) × (fs : List Flow) × (with_session probe_fuel
          (suc source_fuel)
          env
          args
          dar
          ifaddr
          (some sent)
        ≡ some (sent, s))
      × IsPlanned h fs
      × (s.effects ≡ whole_session args h fs)
      × IsDar s.dar [] []
unfolding with_session machete_setup_sender_spec
with_session_lem env ifaddr args probe_fuel source_fuel dar sent h v =
    let arguments = session_arguments args in
    let (session, fs, ran, planned, held, did, ip, port, asked, least, emptied) =
      setup_sender_lem env arguments h.label h.node h.nodes h.address h.addresses h.source h.sources
        source_fuel dar h.ready h.creates v in
    let torn =
      teardown_sender_lem session.network arguments ifaddr session.state fs h.removed held
        h.cleaned in
    (
      record session.state {
        effects =
            session.state.effects
            ++ teardown_effects arguments session.state.dar_ip session.state.dar_port fs h.removed;
      },
      fs,
      ap (λ k. with_session k (suc source_fuel) env args dar ifaddr (some sent)) h.probes
          ∙ rw (ran, torn) refl,
      planned,
      rw (did, ip, port) refl,
      emptied,
    )

-- file_client with arguments that fit, for a session in which everything answers and each source that
-- is missing can be created as an alias, without a STUN server, and a file that is not empty and
-- shorter than 2 GiB, which stat and sendfile see whole: it sets up the planned flows, sends the file,
-- tears everything down for the same flows and returns. If the announcements and a first byte of the
-- content arrive together, and the rest in any pieces, the receiver writes the content to a file
-- whose name is the one sent with whatever lies behind its array, up to a NUL.
pub file_client_main-transfer :
    (env : Environment) (ifaddr : List IfAddrs) (args : SenderArguments)
    (probe_fuel source_fuel : ℕ) (dar : Dar) (mode : Bytes) (more : List Bytes)
    (h : Answers env ifaddr args probe_fuel source_fuel) (file : Bytes → Option Bytes)
    (sizes : Bytes → ℕ) (creates : Bytes → Bool) (stale : ℕ → Bytes) (behind first : Bytes)
    (later : List Bytes) (fuel : ℕ) (sendfile : ℕ → Option ℕ)
    → let content = first ++ contents later in
      let pieces = announced args.filename (length content) first ∷ later in
      AreArguments args
      → IsDar dar [] []
      → file args.filename ≡ some content
      → sizes args.filename ≡ length content
      → 0 < length first
      → All IsPiece later
      → sendfile (length content) ≡ some (length content)
      → length (stale (length args.filename)) ≡ length args.filename
      → NoNul args.filename
      → length content < 2 ^ 31
      → creates (args.filename ++ c_string behind) ≡ true
      → length content < fuel
      → (s : State) × (fs : List Flow) × (file_client_main probe_fuel
            (suc source_fuel)
            env
            dar
            ifaddr
            file
            sizes
            sendfile
            (argv_of mode args more)
          ≡ some (contents pieces, s))
        × IsPlanned h fs
        × (s.effects ≡ whole_session args h fs)
        × (machete_receive_data fuel creates stale behind pieces
            ≡ some (args.filename ++ c_string behind, content))
unfolding file_client_main
file_client_main-transfer env ifaddr args probe_fuel source_fuel dar mode more h file sizes creates
      stale behind first later fuel sendfile fit v found sized some_first rest sends array nul small
      made enough =
    let content = first ++ contents later in
    let pieces = announced args.filename (length content) first ∷ later in
    let (sent, received) =
      file_transfer creates stale behind args.filename first later fuel sendfile some_first rest
        sends array nul (omega (arith, fit.name_fits)) small made enough in
    let (s, fs, ran, planned, did, emptied) =
      with_session_lem env ifaddr args probe_fuel source_fuel dar (contents pieces) h v in
    (
      s,
      fs,
      rw (sender_arguments-argv_of mode args more fit, found, sized, sent) ran,
      planned,
      did,
      received,
    )
