-- ===== src/Sender/Session/Unheard.antt =====
-- A sender whose socket for alerts does not open.
use premium.Base.{
  List, [], ◌++◌, ◌≡◌, refl, Bool, false, some, get_elem?, concat_map, append-nil, ◌∙◌,
}
use premium.Text.{Bytes}
use premium.Dar.Alerts.{HijackAlert}
use premium.Dar.Chain.Shape.{Holds-nil}
use premium.Dar.Paths.{PathStatus}
use premium.Dar.Receiver.{Read, shut_down, handle_darshana_client_loop, setup_dar}
use premium.Dar.Receiver.Loop.{IsDar}
use premium.Dar.Receiver.Socket.{
  socket_fails, init_dar_socket, handle_darshana_client_thread_function,
}
use premium.Sender.State.{Network, State}
use premium.Sender.Flows.Order.{grid}
use premium.Sender.Flows.Setup.{Flow, FlowsAt, flow_setup, setup_each_flow-IsDar}
use premium.Sender.Session.{SetupSenderArg, start_path_monitoring_module, setup_paths}

-- If socket fails for the receiver of alerts, the sender goes on without it: where every pair of
-- indices has a source, a destination and a node, there is a first source, both lists of the receiver
-- are intact and no STUN server is used, it sets up every flow as ever, opens no socket, and the
-- thread that should read the alerts ends at its first read. Whatever alerts are sent, none is kept
-- and no signal is raised.
pub setup_paths-unheard :
    (stun : Bytes → Bytes) (net : Network) (setup_arguments : SetupSenderArg) (s : State)
    (fs : List Flow) (dar_ip : Bytes) (alerts : List HijackAlert) (paths : List PathStatus)
    (returns : Bool) (sent : List Read)
    → setup_arguments.use_stun_server ≡ false
    → FlowsAt net s.srcs (grid net.num_dsts 0 net.num_srcs) fs
    → get_elem? s.srcs 0 ≡ some dar_ip
    → IsDar s.dar alerts paths
    → (s' : State) × (opened : Bool) × (setup_paths stun socket_fails net setup_arguments s
        ≡ some s')
      × (s'.effects
          ≡ s.effects
            ++ concat_map
                (flow_setup setup_arguments.overlay_port setup_arguments.receiver_port dar_ip)
                fs)
      × (init_dar_socket socket_fails ≡ some opened)
      × (handle_darshana_client_thread_function returns opened sent s'.dar ≡ (shut_down, s'.dar))
      × IsDar s'.dar [] []
unfolding setup_paths start_path_monitoring_module setup_dar init_dar_socket
    handle_darshana_client_thread_function handle_darshana_client_loop
setup_paths-unheard stun net args s fs dar_ip alerts paths returns sent plain at first v =
    let (s1, ran, same, ip, port, did, held) =
      setup_each_flow-IsDar stun net args.overlay_port args.receiver_port s fs dar_ip alerts paths
        at first v in
    (
      record s1 { effects = s1.effects ++ []; dar = setup_dar args.max_dar_alerts s1.dar },
      false,
      rw (plain, ran) refl,
      append-nil s1.effects ∙ did,
      refl,
      refl,
      record { alerts_held = Holds-nil held.alerts_held; paths_held = Holds-nil held.paths_held },
    )
