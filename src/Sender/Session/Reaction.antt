-- ===== src/Sender/Session/Reaction.antt =====
-- What teardown_sender does, and what each reaction to an alert does to the flows.
use premium.Base.{ℕ, List, [], ◌∷◌, ◌++◌, ◌≡◌, refl, some, map, concat_map, append_assoc}
use premium.Text.{Bytes}
use premium.Sender.State.{
  Effect, system, close_dar_socket, close_receiver_socket, close_log_file, Network, State,
}
use premium.Sender.Flows.Order.{grid}
use premium.Sender.Flows.Setup.{Flow, FlowsAt}
use premium.Sender.Flows.Clean.{node_teardown, sender_teardown, clean_rules_lem}
use premium.Sender.Interfaces.{IfAddrs, clean_virtual_interfaces}
use premium.Sender.Session.{
  MacheteReaction, shutdown_communication, shutdown_communication_and_starts_again_wout_bad_path,
  reuse_paths_left, create_new_path, do_nothing_and_ignore_alerts, other_reaction, SetupSenderArg,
  Outcome, returns, exits, stop_path_monitoring_module, teardown_sender, react, handle_dar_signal,
}

-- Everything that teardown_sender does, in order.
abbrev pub teardown_effects : SetupSenderArg → Bytes → ℕ → List Flow → List Bytes → List Effect
teardown_effects args dar_ip dar_port fs cs =
    close_receiver_socket
    ∷ close_dar_socket
    ∷ (concat_map (node_teardown args.overlay_port args.receiver_port dar_ip dar_port) fs
        ++ (concat_map sender_teardown fs ++ (map system cs ++ close_log_file ∷ [])))

-- The outcome of each reaction, of a state and the state torn down.
abbrev pub reaction_outcome : MacheteReaction → State → State → Outcome × State
reaction_outcome shutdown_communication s torn = (exits, torn)
reaction_outcome shutdown_communication_and_starts_again_wout_bad_path s torn = (returns, torn)
reaction_outcome reuse_paths_left s torn = (returns, s)
reaction_outcome create_new_path s torn = (returns, s)
reaction_outcome do_nothing_and_ignore_alerts s torn = (returns, s)
reaction_outcome other_reaction s torn = (exits, torn)

react_lem :
    (r : MacheteReaction) (s torn : State)
    → react r (some torn) s ≡ some (reaction_outcome r s torn)
unfolding react
react_lem shutdown_communication s torn = refl
react_lem shutdown_communication_and_starts_again_wout_bad_path s torn = refl
react_lem reuse_paths_left s torn = refl
react_lem create_new_path s torn = refl
react_lem do_nothing_and_ignore_alerts s torn = refl
react_lem other_reaction s torn = refl

torn_effects :
    (es ns ss zs : List Effect)
    → ((((es ++ close_receiver_socket ∷ []) ++ close_dar_socket ∷ []) ++ ns) ++ ss) ++ zs
      ≡ es ++ close_receiver_socket ∷ close_dar_socket ∷ (ns ++ (ss ++ zs))
torn_effects es ns ss zs = simp (append_assoc)

pub teardown_sender_lem :
    (net : Network) (args : SetupSenderArg) (ifaddr : List IfAddrs) (s : State) (fs : List Flow)
    (cs : List Bytes)
    → FlowsAt net s.srcs (grid net.num_dsts 0 net.num_srcs) fs
    → clean_virtual_interfaces ifaddr ≡ some cs
    → teardown_sender net args ifaddr s
      ≡ some (record s { effects = s.effects ++ teardown_effects args s.dar_ip s.dar_port fs cs })
unfolding teardown_sender stop_path_monitoring_module
teardown_sender_lem net args ifaddr s fs cs at cleaned =
    let closed : State = record s {
      effects = (s.effects ++ close_receiver_socket ∷ []) ++ close_dar_socket ∷ [];
    } in
    rw
      (clean_rules_lem net args.overlay_port args.receiver_port closed fs at, cleaned, torn_effects)
      refl

-- If every pair of indices has its flow and every interface has an address: the first and the last
-- reaction tear everything down and end the process; the second tears everything down and lets the
-- program go on; the others change nothing, whatever path is bad. Tearing down closes both
-- sockets, sends the delete rules to the node of every flow, removes the sender's rules and the
-- virtual interfaces and closes the log, in this order.
pub handle_dar_signal_lem :
    (net : Network) (args : SetupSenderArg) (ifaddr : List IfAddrs) (s : State) (fs : List Flow)
    (cs : List Bytes)
    → FlowsAt net s.srcs (grid net.num_dsts 0 net.num_srcs) fs
    → clean_virtual_interfaces ifaddr ≡ some cs
    → handle_dar_signal net args ifaddr s
      ≡ some (
          reaction_outcome args.reaction_spec s
            (record s { effects = s.effects ++ teardown_effects args s.dar_ip s.dar_port fs cs }))
unfolding handle_dar_signal
handle_dar_signal_lem net args ifaddr s fs cs at cleaned =
    rw (teardown_sender_lem net args ifaddr s fs cs at cleaned) (react_lem args.reaction_spec s _)
