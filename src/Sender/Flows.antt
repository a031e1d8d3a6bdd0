-- ===== src/Sender/Flows.antt =====
-- setup_each_flow and clean_rules of SCMultipath/sending_handler.c. `stun` stands for what
-- stunGetPublicIP writes for an address.
pub mod Order
pub mod Setup
pub mod Clean
pub mod Table
pub mod Stun
use premium.Base.{
  ℕ, zero, suc, ◌+◌, ◌*◌, ◌%◌, List, [], ◌∷◌, ◌++◌, Bool, Option, none, some, map, get_elem?, set,
  ◌==◌, if◌then◌else◌, ◌>>=◌,
}
use premium.Text.{Bytes}
use premium.Rules.Spec.{build_hop_forward_rules_spec, build_hop_run_darshana_spec}
use premium.Rules.Nat.{set_sender_own_rules_iptables, remove_sender_own_rules_iptables}
use premium.Dar.Receiver.{add_monitored_path}
use premium.Sender.State.{
  Effect, system, setup_overlay_node, create_darshana, cancel_darshana, Network, State, perform,
  run_sender_darshana, dar_port_number, darshana_server_port, darshana_server_port_number,
}

-- `((i*numDsts+j) % numHops)`, a trap if there is no overlay node.
unfoldable pub hop_index : Network → ℕ → ℕ → Option ℕ
hop_index net i j = if net.num_hops == 0 then none else some ((i * net.num_dsts + j) % net.num_hops)

-- `for (i = from; i < from + n; i++) { body }` with a body that may fail.
unfoldable pub for_each {ℓ} : {S : Type ℓ} → ℕ → ℕ → (ℕ → S → Option S) → S → Option S
for_each zero from body s = some s
for_each (suc n) from body s = do s' ← body from s; for_each n (from + 1) body s'

module _ (stun : Bytes → Bytes) (net : Network) (overlay_port receiver_port : ℕ) where
  -- The body of the two loops of setup_each_flow.
  unfoldable pub setup_flow : Bool → ℕ → ℕ → State → Option State
  setup_flow use_stun_server i j s = do
    h ← hop_index net i j
    src ← get_elem? s.srcs i
    dst ← get_elem? net.dsts j
    hop ← get_elem? net.hops h
    let public_src = if use_stun_server then stun src else src
    let srcs = set s.srcs i public_src
    dar_ip ← get_elem? srcs 0
    dar ← add_monitored_path public_src hop dst s.dar
    some (record s {
      srcs = srcs;
      dar_ip = dar_ip;
      dar_port = dar_port_number;
      dar = dar;
      effects =
          s.effects
          ++ (map system (set_sender_own_rules_iptables src dst hop)
              ++ setup_overlay_node hop overlay_port
                  (build_hop_forward_rules_spec public_src dst receiver_port 1)
                  (build_hop_run_darshana_spec dar_ip dar_port_number dst
                    darshana_server_port_number 1)
                ∷ create_darshana h
                    (run_sender_darshana dar_ip dar_port_number public_src hop darshana_server_port)
                ∷ []);
    })

  unfoldable pub setup_each_flow : Bool → State → Option State
  unfolding for_each
  setup_each_flow use_stun_server s =
      for_each net.num_srcs 0
        (λ i s'. for_each net.num_dsts 0 (λ j s''. setup_flow use_stun_server i j s'') s') s

module _ (net : Network) (overlay_port receiver_port : ℕ) where
  -- The body of the first pair of loops of clean_rules.
  unfoldable pub clean_node : ℕ → ℕ → State → Option State
  clean_node i j s = do
    h ← hop_index net i j
    src ← get_elem? s.srcs i
    dst ← get_elem? net.dsts j
    hop ← get_elem? net.hops h
    some (
        perform
          (setup_overlay_node hop overlay_port
              (build_hop_forward_rules_spec src dst receiver_port 0)
              (build_hop_run_darshana_spec s.dar_ip s.dar_port dst darshana_server_port_number 0)
            ∷ cancel_darshana h
            ∷ [])
          s)

  -- The body of the second pair of loops of clean_rules.
  unfoldable pub clean_sender : ℕ → ℕ → State → Option State
  clean_sender i j s = do
    h ← hop_index net i j
    src ← get_elem? s.srcs i
    dst ← get_elem? net.dsts j
    hop ← get_elem? net.hops h
    some (perform (map system (remove_sender_own_rules_iptables src dst hop)) s)

  unfoldable pub clean_rules : State → Option State
  unfolding for_each
  clean_rules s = do
    s' ← for_each net.num_srcs 0 (λ i t. for_each net.num_dsts 0 (λ j u. clean_node i j u) t) s
    for_each net.num_srcs 0 (λ i t. for_each net.num_dsts 0 (λ j u. clean_sender i j u) t) s'
