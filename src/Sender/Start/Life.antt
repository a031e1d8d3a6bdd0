-- ===== src/Sender/Start/Life.antt =====
-- A session of the sender from machete_setup_sender_spec to the signal that ends it.
use premium.Base.{
  ℕ, suc, ◌+◌, ◌*◌, ◌≤◌, ℤ, List, [], ◌∷◌, ◌++◌, ◌≡◌, ap₂, ◌∙◌, false, some, map, concat_map,
  length,
}
use premium.Text.{Bytes}
use premium.Rules.Teardown.{delete_form}
use premium.Dar.Receiver.{Dar}
use premium.Dar.Receiver.Loop.{IsDar}
use premium.Sender.State.{dar_port_number}
use premium.Sender.Interfaces.{IfAddrs, clean_virtual_interfaces}
use premium.Sender.Interfaces.Local.{local_addresses}
use premium.Sender.Flows.Order.{grid}
use premium.Sender.Flows.Setup.{Flow, FlowsAt, flow_setup}
use premium.Sender.Flows.Clean.{commands, sender_teardown, teardown_commands}
use premium.Sender.Session.{exits, handle_dar_signal}
use premium.Sender.Session.Reaction.{teardown_effects, handle_dar_signal_lem}
use premium.Sender.Start.{Environment, Session, machete_arguments, machete_setup_sender_spec}
use premium.Sender.Start.Plan.{plan}
use premium.Sender.Start.Ready.{IsReady}
use premium.Sender.Start.Run.{setup_effects, setup_sender_lem}

-- A session that machete_setup_sender_spec has set up, when everything that it asks answers and fits,
-- the manager prints all tuples behind the same label, and each source that is missing can be created
-- as an alias, without a STUN server, ends with the first SIGUSR1 that comes when it is set up: everything that was
-- set up for the planned flows is torn down for the same flows, and the process exits. The commands
-- that the sender ran on itself are each run again in the form that deletes.
pub session_ends :
    (env : Environment) (label receiver node : Bytes) (nodes : List Bytes) (address : Bytes)
    (addresses : List Bytes) (source : Bytes) (sources : List Bytes)
    (fuel receiver_port overlay_port min_nodes : ℕ) (max_alerts : ℤ) (dar : Dar)
    (ifaddr : List IfAddrs) (cs : List Bytes)
    → (let args =
          machete_arguments receiver receiver_port overlay_port min_nodes false max_alerts in
        IsReady env args label node nodes address addresses source sources
        → length (node ∷ nodes)
          ≤ length (local_addresses env.interfaces_before) * length (address ∷ addresses) + fuel
        → IsDar dar [] []
        → clean_virtual_interfaces ifaddr ≡ some cs
        → (session : Session) × (fs : List Flow) × (machete_setup_sender_spec
              (length (node ∷ nodes) + 1)
              (suc fuel)
              env
              receiver
              receiver_port
              overlay_port
              min_nodes
              false
              max_alerts
              dar
            ≡ some session)
          × FlowsAt
              (plan (node ∷ nodes) (address ∷ addresses) (source ∷ sources))
              (source ∷ sources)
              (grid (length (address ∷ addresses)) 0 (length (source ∷ sources)))
              fs
          × (handle_dar_signal session.network args ifaddr session.state
              ≡ some (
                exits,
                record session.state {
                  effects =
                      setup_effects args source fs
                      ++ teardown_effects args source dar_port_number fs cs;
                },
              ))
          × (commands (concat_map sender_teardown fs)
              ≡ map delete_form
                  (commands (concat_map (flow_setup overlay_port receiver_port source) fs))))
unfolding machete_setup_sender_spec
session_ends env label receiver node nodes address addresses source sources fuel receiver_port
      overlay_port min_nodes max_alerts dar ifaddr cs r fueled v cleaned =
    let args = machete_arguments receiver receiver_port overlay_port min_nodes false max_alerts in
    let (session, fs, ran, planned, held, did, ip, port, asked, least, emptied) =
      setup_sender_lem env args label node nodes address addresses source sources fuel dar r fueled
        v in
    (
      session,
      fs,
      ran,
      planned,
      handle_dar_signal_lem session.network args ifaddr session.state fs cs held cleaned
          ∙ ap₂
              (λ es (at : Bytes × ℕ). some (
                exits,
                record session.state { effects = es ++ teardown_effects args (at.0) (at.1) fs cs },
              ))
              did (ap₂ (λ a b. (a, b)) ip port),
      teardown_commands overlay_port receiver_port source fs,
    )
