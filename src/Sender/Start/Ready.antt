-- ===== src/Sender/Start/Ready.antt =====
-- What setup_sender needs of the manager, the interfaces and its arrays, and the sources that it
-- finds.
use premium.Base.{
  ℕ, suc, ◌+◌, ◌*◌, ◌≤◌, ◌<◌, pos, List, [], ◌∷◌, ◌≡◌, refl, ap, ◌∙◌, true, false, some, arith,
  ltb-false, Bool-cases, ◌==◌, inl, inr, length, All,
}
use premium.Text.{Bytes, codes}
use premium.Net.Probe.{validate_number_of_hops}
use premium.Manager.Buffer.{received}
use premium.Manager.Nodes.{IsAddress, IsLabel, node_lines, store_all}
use premium.Manager.Receiver.Lines.{size_line, address_line}
use premium.Dar.Receiver.Socket.{socket_bound}
use premium.Sender.State.{max_flows, Network}
use premium.Sender.Interfaces.{setup_machete_info}
use premium.Sender.Interfaces.Local.{
  IsInterface, local_addresses, last_interface, get_local_interfaces-local_addresses,
}
use premium.Sender.Interfaces.Loop.{CanCreate, create_sources-least}
use premium.Sender.Flows.Setup.{Flow, FlowsAt, after_flows}
use premium.Sender.Session.{SetupSenderArg}
use premium.Sender.Start.{Environment, go_on}
use premium.Sender.Start.Plan.{length-store_all}

-- What a sender asks before it creates sources answers: the manager knows the nodes and the
-- receiver's addresses, and prints each tuple behind the same label, every ping of the probe is
-- answered, and the interfaces have addresses; and all of it fits the arrays.
pub record IsAnswered (env : Environment) (args : SetupSenderArg) (label node : Bytes)
    (nodes : List Bytes) (address : Bytes) (addresses : List Bytes) : Type 0 where
  pub nodes_answered :
      env.node_answers ≡ received (codes "OK\n") ∷ node_lines label (node ∷ nodes) []
  pub pings_answered : (t : ℕ) (ip : Bytes) → env.ping t ip ≡ true
  pub receiver_answered :
      env.receiver_answers
      ≡ received (codes "OK\n")
        ∷ received (size_line label args.receiver_addr (length (address ∷ addresses)))
        ∷ received (codes "OK\n")
        ∷ received (address_line label (address ∷ addresses))
        ∷ []
  pub usable_before : All IsInterface env.interfaces_before
  pub is_label : IsLabel label
  pub receiver_IsAddress : IsAddress args.receiver_addr
  pub are_nodes : All IsAddress (node ∷ nodes)
  pub are_addresses : All IsAddress (address ∷ addresses)
  pub hops_reserved : length env.reserved_hops ≡ max_flows
  pub srcs_reserved : length env.reserved_srcs ≡ max_flows
  pub dsts_reserved : length env.reserved_dsts ≡ max_flows
  pub nodes_fit : length (node ∷ nodes) ≤ max_flows
  pub addresses_fit : length (address ∷ addresses) ≤ max_flows
  pub before_fits : length (local_addresses env.interfaces_before) ≤ max_flows
  pub min_nodes : args.min_number_of_nodes ≤ length (node ∷ nodes)

-- The interface for which sources are created, and whether there are too few of them.
abbrev pub primary_of : Environment → Bytes
primary_of env = last_interface env.interfaces_before env.reserved_interface

abbrev pub TooFew : Environment → List Bytes → List Bytes → Type 0
TooFew env addresses nodes =
    length (local_addresses env.interfaces_before) * length addresses < length nodes

-- Everything that a sender asks answers: sources can be created if any is missing, the interfaces that
-- the machine then has have addresses that fit, and the sockets can be bound and connected. No STUN
-- server is used.
pub record IsReady (env : Environment) (args : SetupSenderArg) (label node : Bytes)
    (nodes : List Bytes) (address : Bytes) (addresses : List Bytes) (source : Bytes)
    (sources : List Bytes) : Type 0 where
  pub answered : IsAnswered env args label node nodes address addresses
  pub can_create :
      TooFew env (address ∷ addresses) (node ∷ nodes)
      → CanCreate env.machine
          (primary_of env)
          (length (local_addresses env.interfaces_before))
          (length (node ∷ nodes))
  pub usable_after : All IsInterface env.interfaces_after
  pub sources_after : local_addresses env.interfaces_after ≡ source ∷ sources
  pub sources_fit : length (source ∷ sources) ≤ max_flows
  pub binds : env.dar_socket ≡ socket_bound
  pub connects : env.con_result ≡ pos 0
  pub no_stun : args.use_stun_server ≡ false

pub goes_on : (n m : ℕ) → m ≤ n → go_on (validate_number_of_hops n m) ≡ some tt
unfolding validate_number_of_hops
goes_on n m h = elim (Bool-cases (n == m)) [
  | inl e ↦ rw (ltb-false n m h, e) refl
  | inr e ↦ rw (ltb-false n m h, e) refl
]

-- At least one flow is set up.
pub some_flow {ℓ} :
    {A : Type ℓ} (net : Network) (srcs : List Bytes) (p : ℕ × ℕ) (ps : List (ℕ × ℕ))
    (fs : List Flow) (old new : A)
    → FlowsAt net srcs (p ∷ ps) fs
    → after_flows fs old new ≡ new
some_flow net srcs p ps [] old new at = elim at [ ]
some_flow net srcs p ps (f ∷ fs) old new at = refl

-- How many sources are created: the least number that, with those there are, gives every node a flow.
abbrev pub IsLeast : ℕ → ℕ → ℕ → ℕ → Type 0
IsLeast num_dsts num_hops before made =
    (n : ℕ) × (made + before ≡ n)
    × (num_hops ≤ n * num_dsts)
    × ((k : ℕ) → before ≤ k → k < n → k * num_dsts < num_hops)

pub sources_found :
    (env : Environment) (args : SetupSenderArg) (label node : Bytes) (nodes : List Bytes)
    (address : Bytes) (addresses : List Bytes) (source : Bytes) (sources : List Bytes) (fuel : ℕ)
    → IsReady env args label node nodes address addresses source sources
    → length (node ∷ nodes)
      ≤ length (local_addresses env.interfaces_before) * length (address ∷ addresses) + fuel
    → (created : List Bytes) × (primary : Bytes) × (srcs : List Bytes) × (length srcs ≡ max_flows)
      × (setup_machete_info env.machine
            (suc fuel)
            env.interfaces_before
            env.interfaces_after
            (length (address ∷ addresses))
            (length (node ∷ nodes))
            env.reserved_interface
            env.reserved_srcs
          ≡ some (created, primary, length (source ∷ sources), store_all srcs 0 (source ∷ sources)))
      × IsLeast
          (length (address ∷ addresses))
          (length (node ∷ nodes))
          (length (local_addresses env.interfaces_before))
          (length created)
unfolding setup_machete_info
sources_found env args label node nodes address addresses source sources fuel r fueled =
    let before = local_addresses env.interfaces_before in
    let name = last_interface env.interfaces_before env.reserved_interface in
    let srcs = store_all env.reserved_srcs 0 before in
    let long : length srcs ≡ max_flows =
      length-store_all before env.reserved_srcs 0 ∙ r.answered.srcs_reserved in
    let first =
      get_local_interfaces-local_addresses env.interfaces_before env.reserved_interface 0
        env.reserved_srcs r.answered.usable_before
        (omega (arith, r.answered.srcs_reserved, r.answered.before_fits)) in
    let second =
      get_local_interfaces-local_addresses env.interfaces_after name 0 srcs r.usable_after
        (omega (arith, long, r.sources_fit, ap length r.sources_after)) in
    let (n, created, made, all, above, least, count) =
      create_sources-least env.machine fuel name (length before) (0 + length before)
        (length (address ∷ addresses)) (length (node ∷ nodes)) []
        (λ few. r.can_create (grind arith)) (omega arith) (omega arith) (omega arith) in
    (
      created,
      last_interface env.interfaces_after name,
      srcs,
      long,
      rw (first, made, second, r.sources_after)
          (ap
            (λ k. some (
              created,
              last_interface env.interfaces_after name,
              k,
              store_all srcs 0 (source ∷ sources),
            ))
            (omega arith)),
      (n, omega arith, all, λ k ge lt. least k (omega arith) lt),
    )
