-- ===== src/Sender/Flows/Setup.antt =====
-- setup_each_flow without a STUN server: the effects and the monitored paths, flow by flow.
use premium.Base.{
  ℕ, List, [], ◌∷◌, ◌++◌, ◌≡◌, refl, sym, ◌∙◌, false, Option, some, arith, map, get_elem?, set_same,
  concat_map, append_assoc, append-nil, ◌>>=◌,
}
use premium.Text.{Bytes}
use premium.Rules.Spec.{build_hop_forward_rules_spec, build_hop_run_darshana_spec}
use premium.Rules.Nat.{set_sender_own_rules_iptables}
use premium.Dar.Alerts.{HijackAlert}
use premium.Dar.Paths.{PathStatus, new_path_status}
use premium.Dar.Receiver.{Dar, add_monitored_path}
use premium.Dar.Receiver.Loop.{IsDar, add_monitored_path-IsDar}
use premium.Sender.State.{
  Effect, system, setup_overlay_node, create_darshana, Network, State, run_sender_darshana,
  dar_port_number, darshana_server_port, darshana_server_port_number,
}
use premium.Sender.Flows.{hop_index, setup_flow, setup_each_flow}
use premium.Sender.Flows.Order.{visit, grid, for_each-grid}

-- One flow: its addresses and its overlay node.
pub record Flow : Type 0 where
  pub src : Bytes
  pub dst : Bytes
  pub hop : Bytes
  pub index : ℕ

abbrev pub flow_at : Network → List Bytes → ℕ → ℕ → Option Flow
flow_at net srcs i j = do
  h ← hop_index net i j
  src ← get_elem? srcs i
  dst ← get_elem? net.dsts j
  hop ← get_elem? net.hops h
  some (record { src = src; dst = dst; hop = hop; index = h })

-- The flows at some indices, in order.
abbrev pub FlowsAt : Network → List Bytes → List (ℕ × ℕ) → List Flow → Type 0
FlowsAt net srcs [] [] = Unit
FlowsAt net srcs [] (f ∷ fs) = ⊥
FlowsAt net srcs (p ∷ ps) [] = ⊥
FlowsAt net srcs ((i, j) ∷ ps) (f ∷ fs) = (flow_at net srcs i j ≡ some f) × FlowsAt net srcs ps fs

-- What setting a flow up does: the sender's own NAT rules, the node's rules, the Darshana instance.
abbrev pub flow_setup : ℕ → ℕ → Bytes → Flow → List Effect
flow_setup overlay_port receiver_port dar_ip f =
    map system (set_sender_own_rules_iptables f.src f.dst f.hop)
    ++ setup_overlay_node f.hop overlay_port
        (build_hop_forward_rules_spec f.src f.dst receiver_port 1)
        (build_hop_run_darshana_spec dar_ip dar_port_number f.dst darshana_server_port_number 1)
      ∷ create_darshana f.index
          (run_sender_darshana dar_ip dar_port_number f.src f.hop darshana_server_port)
      ∷ []

abbrev pub monitored : Flow → PathStatus
monitored f = new_path_status f.src f.hop f.dst

-- What a variable holds that is written once for every flow.
abbrev pub after_flows {ℓ} : {A : Type ℓ} → List Flow → A → A → A
after_flows [] old new = old
after_flows (f ∷ fs) old new = new

after_flows_same {ℓ} : {A : Type ℓ} (fs : List Flow) (a : A) → after_flows fs a a ≡ a
after_flows_same [] a = refl
after_flows_same (f ∷ fs) a = refl

pub flow_at-parts :
    (net : Network) (srcs : List Bytes) (i j : ℕ) (f : Flow)
    → flow_at net srcs i j ≡ some f
    → (hop_index net i j ≡ some f.index)
      × (get_elem? srcs i ≡ some f.src)
      × (get_elem? net.dsts j ≡ some f.dst)
      × (get_elem? net.hops f.index ≡ some f.hop)
flow_at-parts net srcs i j f e = ground arith

module _ (stun : Bytes → Bytes) (net : Network) (overlay_port receiver_port : ℕ) where
  setup_flow-step :
      (s : State) (i j : ℕ) (f : Flow) (dar_ip : Bytes) (d : Dar)
      → flow_at net s.srcs i j ≡ some f
      → get_elem? s.srcs 0 ≡ some dar_ip
      → add_monitored_path f.src f.hop f.dst s.dar ≡ some d
      → setup_flow stun net overlay_port receiver_port false i j s
        ≡ some (record s {
          dar_ip = dar_ip;
          dar_port = dar_port_number;
          dar = d;
          effects = s.effects ++ flow_setup overlay_port receiver_port dar_ip f;
        })
  unfolding setup_flow
  setup_flow-step s i j f dar_ip d at first added =
      let (e1, e2, e3, e4) = flow_at-parts net s.srcs i j f at in
      rw (e1, e2, e3, e4, set_same s.srcs i f.src e2, first, added) refl

  setup_flow-run :
      (ps : List (ℕ × ℕ)) (s : State) (fs : List Flow) (dar_ip : Bytes) (alerts : List HijackAlert)
      (paths : List PathStatus)
      → FlowsAt net s.srcs ps fs
      → get_elem? s.srcs 0 ≡ some dar_ip
      → IsDar s.dar alerts paths
      → (s' : State) × (visit ps (setup_flow stun net overlay_port receiver_port false) s ≡ some s')
        × (s'.srcs ≡ s.srcs)
        × (s'.dar_ip ≡ after_flows fs s.dar_ip dar_ip)
        × (s'.dar_port ≡ after_flows fs s.dar_port dar_port_number)
        × (s'.effects ≡ s.effects ++ concat_map (flow_setup overlay_port receiver_port dar_ip) fs)
        × IsDar s'.dar alerts (paths ++ map monitored fs)
  setup_flow-run [] s [] dar_ip alerts paths at first v =
      (s, refl, refl, refl, refl, sym (append-nil s.effects), rw append-nil v)
  setup_flow-run [] s (f ∷ fs) dar_ip alerts paths at first v = elim at [ ]
  setup_flow-run ((i, j) ∷ ps) s [] dar_ip alerts paths at first v = elim at [ ]
  setup_flow-run ((i, j) ∷ ps) s (f ∷ fs) dar_ip alerts paths (at, rest) first v =
      let (d, added, kept) = add_monitored_path-IsDar s.dar alerts paths f.src f.hop f.dst v in
      let next : State = record s {
        dar_ip = dar_ip;
        dar_port = dar_port_number;
        dar = d;
        effects = s.effects ++ flow_setup overlay_port receiver_port dar_ip f;
      } in
      let (s', ran, same, ip, port, did, held) =
        setup_flow-run ps next fs dar_ip alerts (paths ++ monitored f ∷ []) rest first kept in
      (
        s',
        rw (setup_flow-step s i j f dar_ip d at first added) ran,
        same,
        ip ∙ after_flows_same fs dar_ip,
        port ∙ after_flows_same fs dar_port_number,
        did ∙ append_assoc s.effects (flow_setup overlay_port receiver_port dar_ip f) _,
        rw (append_assoc paths (monitored f ∷ []) (map monitored fs)) at held,
      )

  -- Without a STUN server, if every pair of indices below the numbers of sources and destinations
  -- has a source, a destination and a node, there is a first source, and both lists of the
  -- receiver of alerts are intact, setup_each_flow runs to its end. It sets up the flows row by
  -- row: for each it runs the sender's own commands, sends both rule expressions to the node and
  -- starts its Darshana instance, and it adds the paths, in the same order, to those that are
  -- monitored. The sources stay as they are; if there is a flow, the DAR address is the first of them
  -- and the DAR port is DAR_PORT.
  pub setup_each_flow-IsDar :
      (s : State) (fs : List Flow) (dar_ip : Bytes) (alerts : List HijackAlert)
      (paths : List PathStatus)
      → FlowsAt net s.srcs (grid net.num_dsts 0 net.num_srcs) fs
      → get_elem? s.srcs 0 ≡ some dar_ip
      → IsDar s.dar alerts paths
      → (s' : State) × (setup_each_flow stun net overlay_port receiver_port false s ≡ some s')
        × (s'.srcs ≡ s.srcs)
        × (s'.dar_ip ≡ after_flows fs s.dar_ip dar_ip)
        × (s'.dar_port ≡ after_flows fs s.dar_port dar_port_number)
        × (s'.effects ≡ s.effects ++ concat_map (flow_setup overlay_port receiver_port dar_ip) fs)
        × IsDar s'.dar alerts (paths ++ map monitored fs)
  unfolding setup_each_flow
  setup_each_flow-IsDar s fs dar_ip alerts paths at first v =
      rw
        (for_each-grid net.num_dsts net.num_srcs 0
          (setup_flow stun net overlay_port receiver_port false) s)
        (setup_flow-run (grid net.num_dsts 0 net.num_srcs) s fs dar_ip alerts paths at first v)
