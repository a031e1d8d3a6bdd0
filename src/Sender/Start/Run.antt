-- ===== src/Sender/Start/Run.antt =====
-- setup_sender as a whole, when everything that it asks answers.
use premium.Base.{
  ℕ, suc, ◌+◌, ◌*◌, ◌≤◌, ◌<◌, pos, List, [], ◌∷◌, ◌++◌, ◌≡◌, refl, ap, ◌∙◌, false, some, arith,
  length, concat_map, append_assoc,
}
use premium.Text.{Bytes}
use premium.Net.Probe.{probe_overlay_nodes, probe_overlay_nodes_all}
use premium.Manager.Nodes.{get_overlay_nodes_from_manager, store_all, get_overlay_nodes-node_lines}
use premium.Manager.Receiver.{size_question, address_question, get_receiver_info_from_manager}
use premium.Manager.Receiver.RoundTrip.{get_receiver_info-interface_list}
use premium.Dar.Receiver.{Dar}
use premium.Dar.Receiver.Loop.{IsDar}
use premium.Sender.State.{
  Effect, State, perform, open_dar_socket, open_receiver_socket, catch_sigusr1, dar_port_number,
  Network,
}
use premium.Sender.Interfaces.{setup_machete_info}
use premium.Sender.Interfaces.Local.{local_addresses}
use premium.Sender.Flows.Order.{grid}
use premium.Sender.Flows.Setup.{Flow, FlowsAt, flow_setup, after_flows}
use premium.Dar.Receiver.Socket.{socket_bound}
use premium.Sender.Session.{SetupSenderArg, setup_paths}
use premium.Sender.Session.Monitoring.{setup_paths-monitors_none}
use premium.Sender.Start.{
  Environment, Session, init_socket_communication_with_receiver, setup_sender,
}
use premium.Sender.Start.Plan.{
  plan, arrays, length-store_all, get_elem?-store_all, FlowsAt-arrays, planned_flows,
}
use premium.Sender.Start.Ready.{IsAnswered, IsReady, goes_on, some_flow, IsLeast, sources_found}

-- What setup_sender does to its nodes and itself, in order.
abbrev pub setup_effects : SetupSenderArg → Bytes → List Flow → List Effect
setup_effects args source fs =
    concat_map (flow_setup args.overlay_port args.receiver_port source) fs
    ++ open_dar_socket source dar_port_number
      ∷ catch_sigusr1
      ∷ open_receiver_socket args.receiver_addr args.receiver_port
      ∷ []

abbrev planned_network : Environment → List Bytes → List Bytes → List Bytes → Network
planned_network env nodes addresses sources =
    arrays env.reserved_hops nodes env.reserved_dsts addresses sources

abbrev planned_state : Environment → List Bytes → List Bytes → Dar → State
planned_state env srcs sources dar = record {
  srcs = store_all srcs 0 sources;
  dar_ip = env.reserved_dar_ip;
  dar_port = env.reserved_dar_port;
  dar = dar;
  effects = [];
}

-- The flows and the start of monitoring, for arrays that hold what was asked.
paths_set_up :
    (env : Environment) (args : SetupSenderArg) (nodes addresses : List Bytes) (source : Bytes)
    (sources srcs : List Bytes) (fs : List Flow) (dar : Dar)
    → (let all_sources = source ∷ sources in
        args.use_stun_server ≡ false
        → env.dar_socket ≡ socket_bound
        → length nodes ≤ length env.reserved_hops
        → 0 < length addresses
        → length addresses ≤ length env.reserved_dsts
        → length all_sources ≤ length srcs
        → IsDar dar [] []
        → FlowsAt
            (plan nodes addresses all_sources)
            all_sources
            (grid (length addresses) 0 (length all_sources))
            fs
        → (s : State) × (setup_paths env.stun env.dar_socket
              (planned_network env nodes addresses all_sources)
              args
              (planned_state env srcs all_sources dar)
            ≡ some s)
          × (s.effects
              ≡ concat_map (flow_setup args.overlay_port args.receiver_port source) fs
                ++ open_dar_socket
                    (after_flows fs env.reserved_dar_ip source)
                    (after_flows fs env.reserved_dar_port dar_port_number)
                  ∷ [])
          × (s.srcs ≡ store_all srcs 0 all_sources)
          × (s.dar_ip ≡ after_flows fs env.reserved_dar_ip source)
          × (s.dar_port ≡ after_flows fs env.reserved_dar_port dar_port_number)
          × IsDar s.dar [] [])
paths_set_up env args nodes addresses source sources srcs fs dar plain bound h1 h2 h3 h4 v planned =
    let all_sources = source ∷ sources in
    let cells = grid (length addresses) 0 (length all_sources) in
    let (s, d, ran, did, same, ip, port, emptied, looped, kept, raised) =
      setup_paths-monitors_none env.stun (planned_network env nodes addresses all_sources) args
        (planned_state env srcs all_sources dar) fs source [] [] [] [] plain
        (FlowsAt-arrays env.reserved_hops nodes env.reserved_dsts addresses srcs all_sources cells
          fs h1 h3 h4 planned)
        (get_elem?-store_all all_sources srcs 0 0 0 source (omega arith) refl refl) v tt in
    let net = planned_network env nodes addresses all_sources in
    (
      s,
      ap (λ b. setup_paths env.stun b net args (planned_state env srcs all_sources dar)) bound
          ∙ ran,
      did,
      same,
      ip,
      port,
      emptied,
    )

-- The questions to the manager and the probe.
pub nodes_found :
    (env : Environment) (args : SetupSenderArg) (label node : Bytes) (nodes : List Bytes)
    (address : Bytes) (addresses : List Bytes)
    → IsAnswered env args label node nodes address addresses
    → (let n = length (node ∷ nodes) in
        let hops = store_all env.reserved_hops 0 (node ∷ nodes) in
        (get_overlay_nodes_from_manager env.reserved_hops env.node_answers ≡ some (n, hops))
        × (probe_overlay_nodes env.ping (n + 1) n hops ≡ some (n, hops)))
nodes_found env args label node nodes address addresses r = (
  ap (get_overlay_nodes_from_manager env.reserved_hops) r.nodes_answered
      ∙ get_overlay_nodes-node_lines env.reserved_hops label node nodes [] r.is_label r.are_nodes
          (omega (arith, r.hops_reserved, r.nodes_fit)),
  probe_overlay_nodes_all env.ping (length (node ∷ nodes))
      (store_all env.reserved_hops 0 (node ∷ nodes)) r.pings_answered
      (omega
        (arith, length-store_all (node ∷ nodes) env.reserved_hops 0, r.hops_reserved, r.nodes_fit)),
)

pub receiver_found :
    (env : Environment) (args : SetupSenderArg) (label node : Bytes) (nodes : List Bytes)
    (address : Bytes) (addresses : List Bytes)
    → IsAnswered env args label node nodes address addresses
    → get_receiver_info_from_manager env.reserved_dsts args.receiver_addr env.receiver_answers
      ≡ some (
        length (address ∷ addresses),
        store_all env.reserved_dsts 0 (address ∷ addresses),
        size_question args.receiver_addr
            ∷ address_question args.receiver_addr (length (address ∷ addresses))
            ∷ [],
      )
receiver_found env args label node nodes address addresses r =
    ap (get_receiver_info_from_manager env.reserved_dsts args.receiver_addr) r.receiver_answered
    ∙ get_receiver_info-interface_list env.reserved_dsts label args.receiver_addr address addresses
        [] r.is_label r.receiver_IsAddress r.are_addresses
        (omega (arith, r.dsts_reserved, r.addresses_fit)) (omega (arith, r.dsts_reserved))

-- The steps of setup_sender, one after the other.
setup_sender-steps :
    (probe_fuel source_fuel : ℕ) (env : Environment) (args : SetupSenderArg) (dar : Dar)
    (net : Network) (returned : ℕ) (found srcs questions : List Bytes) (created : List Bytes)
    (primary : Bytes) (s : State)
    → get_overlay_nodes_from_manager env.reserved_hops env.node_answers ≡ some (returned, found)
    → probe_overlay_nodes env.ping probe_fuel returned found ≡ some (net.num_hops, net.hops)
    → args.min_number_of_nodes ≤ net.num_hops
    → get_receiver_info_from_manager env.reserved_dsts args.receiver_addr env.receiver_answers
      ≡ some (net.num_dsts, net.dsts, questions)
    → setup_machete_info env.machine source_fuel env.interfaces_before env.interfaces_after
        net.num_dsts net.num_hops env.reserved_interface env.reserved_srcs
      ≡ some (created, primary, net.num_srcs, srcs)
    → setup_paths env.stun env.dar_socket net args (record {
      srcs = srcs;
      dar_ip = env.reserved_dar_ip;
      dar_port = env.reserved_dar_port;
      dar = dar;
      effects = [];
    })
      ≡ some s
    → env.con_result ≡ pos 0
    → setup_sender probe_fuel source_fuel env args dar
      ≡ some (record {
        network = net;
        created = created;
        questions = questions;
        state =
            perform
              (open_receiver_socket args.receiver_addr args.receiver_port ∷ [])
              (perform (catch_sigusr1 ∷ []) s);
      })
unfolding setup_sender init_socket_communication_with_receiver
setup_sender-steps probe_fuel source_fuel env args dar net returned found srcs questions created
      primary s asked probed many learnt sources ran connected =
    rw
      (
        asked,
        probed,
        goes_on net.num_hops args.min_number_of_nodes many,
        learnt,
        sources,
        ran,
        connected,
      )
      refl

-- If everything that a sender asks answers and fits, the manager prints all tuples behind the same
-- label, no STUN server is used, no list of the receiver of alerts is broken, and, should sources be
-- missing, the name of the primary interface holds an e and each alias finds a free address with a
-- last part below 1000, setup_sender returns, with one round of fuel more than nodes for the probe and
-- enough for the sources that are missing. It asks the manager both questions about the receiver,
-- runs a command for each of the least number of sources that gives every node a flow, and sets up
-- the planned flows: the pairs of a source that the machine then has and an address of the receiver,
-- row by row, with the nodes that the manager returned in turn. Then it opens the DAR socket at the
-- first source, catches SIGUSR1, and connects to the receiver. Its arrays hold these flows, and no
-- path is monitored.
pub setup_sender_lem :
    (env : Environment) (args : SetupSenderArg) (label node : Bytes) (nodes : List Bytes)
    (address : Bytes) (addresses : List Bytes) (source : Bytes) (sources : List Bytes) (fuel : ℕ)
    (dar : Dar)
    → IsReady env args label node nodes address addresses source sources
    → length (node ∷ nodes)
      ≤ length (local_addresses env.interfaces_before) * length (address ∷ addresses) + fuel
    → IsDar dar [] []
    → (session : Session) × (fs : List Flow) × (setup_sender
          (length (node ∷ nodes) + 1)
          (suc fuel)
          env
          args
          dar
        ≡ some session)
      × FlowsAt
          (plan (node ∷ nodes) (address ∷ addresses) (source ∷ sources))
          (source ∷ sources)
          (grid (length (address ∷ addresses)) 0 (length (source ∷ sources)))
          fs
      × FlowsAt session.network session.state.srcs
          (grid session.network.num_dsts 0 session.network.num_srcs)
          fs
      × (session.state.effects ≡ setup_effects args source fs)
      × (session.state.dar_ip ≡ source)
      × (session.state.dar_port ≡ dar_port_number)
      × (session.questions
          ≡ size_question args.receiver_addr
            ∷ address_question args.receiver_addr (length (address ∷ addresses))
            ∷ [])
      × IsLeast
          (length (address ∷ addresses))
          (length (node ∷ nodes))
          (length (local_addresses env.interfaces_before))
          (length session.created)
      × IsDar session.state.dar [] []
setup_sender_lem env args label node nodes address addresses source sources fuel dar r fueled v =
    let q = r.answered in
    let all_nodes = node ∷ nodes in
    let all_addresses = address ∷ addresses in
    let all_sources = source ∷ sources in
    let cells = grid (length all_addresses) 0 (length all_sources) in
    let (created, primary, srcs, long, found, least) =
      sources_found env args label node nodes address addresses source sources fuel r fueled in
    let (fs, planned) = planned_flows all_nodes all_addresses all_sources (omega arith) in
    let (s, ran, did, same, ip, port, emptied) =
      paths_set_up env args all_nodes all_addresses source sources srcs fs dar r.no_stun r.binds
        (omega (arith, q.hops_reserved, q.nodes_fit)) (omega arith)
        (omega (arith, q.dsts_reserved, q.addresses_fit)) (omega (arith, long, r.sources_fit)) v
        planned in
    let (asked, probed) = nodes_found env args label node nodes address addresses q in
    let learnt = receiver_found env args label node nodes address addresses q in
    let net = plan all_nodes all_addresses all_sources in
    let flow_ip = some_flow net all_sources (0, 0) _ fs env.reserved_dar_ip source planned in
    let flow_port =
      some_flow net all_sources (0, 0) _ fs env.reserved_dar_port dar_port_number planned in
    (
      record {
        network = planned_network env all_nodes all_addresses all_sources;
        created = created;
        questions =
            size_question args.receiver_addr
            ∷ address_question args.receiver_addr (length all_addresses)
            ∷ [];
        state =
            perform (open_receiver_socket args.receiver_addr args.receiver_port ∷ [])
              (perform (catch_sigusr1 ∷ []) s);
      },
      fs,
      setup_sender-steps (length all_nodes + 1) (suc fuel) env args dar
          (planned_network env all_nodes all_addresses all_sources) (length all_nodes) _ _ _ created
          primary s asked probed q.min_nodes learnt found ran r.connects,
      planned,
      rw same (
          FlowsAt-arrays env.reserved_hops all_nodes env.reserved_dsts all_addresses srcs
            all_sources cells fs (omega (arith, q.hops_reserved, q.nodes_fit))
            (omega (arith, q.dsts_reserved, q.addresses_fit)) (omega (arith, long, r.sources_fit))
            planned),
      rw (did, flow_ip, flow_port) (simp append_assoc refl),
      ip ∙ flow_ip,
      port ∙ flow_port,
      refl,
      least,
      emptied,
    )
