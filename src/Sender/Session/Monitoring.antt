-- ===== src/Sender/Session/Monitoring.antt =====
-- What is monitored once setup_sender has started the receiver of alerts.
use premium.Base.{◌+◌, List, [], ◌∷◌, ◌++◌, ◌≡◌, refl, true, false, some, get_elem?, concat_map}
use premium.Text.{Bytes}
use premium.Dar.Alerts.{HijackAlert}
use premium.Dar.Chain.Shape.{Holds-nil}
use premium.Dar.Paths.{PathStatus}
use premium.Dar.Receiver.{Dar, Read, waiting, handle_darshana_client_loop, setup_dar}
use premium.Dar.Receiver.Loop.{IsDar, Parse, loop-IsDar, signals_due, mark_all}
use premium.Dar.Receiver.Socket.{socket_bound}
use premium.Sender.State.{open_dar_socket, dar_port_number, Network, State}
use premium.Sender.Flows.Order.{grid}
use premium.Sender.Flows.Setup.{Flow, FlowsAt, flow_setup, after_flows, setup_each_flow-IsDar}
use premium.Sender.Session.{SetupSenderArg, start_path_monitoring_module, setup_paths}

mark_all-nil : (received : List HijackAlert) → mark_all received [] ≡ []
mark_all-nil [] = refl
mark_all-nil (alert ∷ received) = mark_all-nil received

-- Without a STUN server, if every pair of indices has a source, a destination and a node, there is a
-- first source, both lists of the receiver of alerts are intact, and bind succeeds, the steps of
-- setup_sender set up every flow and open the DAR socket at the first source, if there is a flow,
-- but the receiver of alerts then monitors no path, since starting it empties the list that setting
-- up the flows has filled. The sources stay as they are. Alerts that all parse are kept, and still
-- no path is marked or monitored; SIGUSR1 is raised by their number alone. This is for a handler of
-- SIGUSR1 that returns.
pub setup_paths-monitors_none :
    (stun : Bytes → Bytes) (net : Network) (setup_arguments : SetupSenderArg) (s : State)
    (fs : List Flow) (dar_ip : Bytes) (alerts : List HijackAlert) (paths : List PathStatus)
    (reads : List Read) (received : List HijackAlert)
    → setup_arguments.use_stun_server ≡ false
    → FlowsAt net s.srcs (grid net.num_dsts 0 net.num_srcs) fs
    → get_elem? s.srcs 0 ≡ some dar_ip
    → IsDar s.dar alerts paths
    → Parse reads received
    → (s' : State) × (d : Dar) × (setup_paths stun socket_bound net setup_arguments s ≡ some s')
      × (s'.effects
          ≡ (s.effects
              ++ concat_map
                  (flow_setup setup_arguments.overlay_port setup_arguments.receiver_port dar_ip)
                  fs)
            ++ open_dar_socket
                (after_flows fs s.dar_ip dar_ip)
                (after_flows fs s.dar_port dar_port_number)
              ∷ [])
      × (s'.srcs ≡ s.srcs)
      × (s'.dar_ip ≡ after_flows fs s.dar_ip dar_ip)
      × (s'.dar_port ≡ after_flows fs s.dar_port dar_port_number)
      × IsDar s'.dar [] []
      × (handle_darshana_client_loop true 0 reads s'.dar ≡ (waiting, d))
      × IsDar d received []
      × (d.signals ≡ s'.dar.signals + signals_due 0 setup_arguments.max_dar_alerts received)
unfolding setup_paths start_path_monitoring_module setup_dar
setup_paths-monitors_none stun net args s fs dar_ip alerts paths reads received plain at first v p =
    let (s1, ran, same, ip, port, did, held) =
      setup_each_flow-IsDar stun net args.overlay_port args.receiver_port s fs dar_ip alerts paths
        at first v in
    let emptied : IsDar (setup_dar args.max_dar_alerts s1.dar) [] [] = record {
      alerts_held = Holds-nil held.alerts_held;
      paths_held = Holds-nil held.paths_held;
    } in
    let (d, looped, kept, raised) =
      loop-IsDar reads received 0 (setup_dar args.max_dar_alerts s1.dar) [] [] emptied p in
    (
      record s1 {
        effects = s1.effects ++ open_dar_socket s1.dar_ip s1.dar_port ∷ [];
        dar = setup_dar args.max_dar_alerts s1.dar;
      },
      d,
      rw (plain, ran) refl,
      rw (did, ip, port) refl,
      same,
      ip,
      port,
      emptied,
      looped,
      rw (mark_all-nil received) at kept,
      raised,
    )
