-- ===== src/Sender/Flows/Table.antt =====
-- The sender's own NAT table over setup_each_flow and clean_rules.
use premium.Base.{
  ℕ, List, [], ◌∷◌, ◌++◌, ◌≡◌, refl, ap, ap₂, sym, ◌∙◌, false, some, map, All, drop, get_elem?,
  concat_map, append-nil, subst,
}
use premium.Text.{Bytes}
use premium.Rules.Nat.{set_sender_own_rules_iptables, remove_sender_own_rules_iptables}
use premium.Rules.Table.{
  append_command, delete_command, Iptables, run_all, LacksRule, run_all-append, run_all-appends,
  run_all-deletes, erase_all, erase_all-appended,
}
use premium.Dar.Alerts.{HijackAlert}
use premium.Dar.Paths.{PathStatus}
use premium.Dar.Receiver.Loop.{IsDar}
use premium.Sender.State.{Effect, Network, State}
use premium.Sender.Flows.{setup_each_flow, clean_rules}
use premium.Sender.Flows.Order.{grid}
use premium.Sender.Flows.Setup.{Flow, FlowsAt, flow_setup, setup_each_flow-IsDar}
use premium.Sender.Flows.Clean.{
  commands, commands-append, sender_teardown, node_teardown, node_teardown-commands,
  clean_rules_lem,
}

-- The two rules of a flow at the sender, as texts.
abbrev pub sender_rules : Flow → List Bytes
sender_rules f = map (drop 18) (set_sender_own_rules_iptables f.src f.dst f.hop)

setup-append_command :
    (overlay_port receiver_port : ℕ) (dar_ip : Bytes) (fs : List Flow)
    → commands (concat_map (flow_setup overlay_port receiver_port dar_ip) fs)
      ≡ map append_command (concat_map sender_rules fs)
unfolding set_sender_own_rules_iptables
setup-append_command overlay_port receiver_port dar_ip [] = refl
setup-append_command overlay_port receiver_port dar_ip (f ∷ fs) =
    ap (λ cs. commands (flow_setup overlay_port receiver_port dar_ip f) ++ cs)
      (setup-append_command overlay_port receiver_port dar_ip fs)

clean-delete_command :
    (fs : List Flow)
    → commands (concat_map sender_teardown fs) ≡ map delete_command (concat_map sender_rules fs)
unfolding set_sender_own_rules_iptables remove_sender_own_rules_iptables
clean-delete_command [] = refl
clean-delete_command (f ∷ fs) =
    ap (λ cs. commands (sender_teardown f) ++ cs) (clean-delete_command fs)

-- The sender's commands up to the end of clean_rules, after those of setup.
pub cleaned_commands :
    (overlay_port receiver_port : ℕ) (dar_ip : Bytes) (dar_port : ℕ) (es : List Effect)
    (fs : List Flow) (cs : List Bytes)
    → commands es ≡ cs
    → commands (
        (es ++ concat_map (node_teardown overlay_port receiver_port dar_ip dar_port) fs)
        ++ concat_map sender_teardown fs)
      ≡ cs ++ map delete_command (concat_map sender_rules fs)
cleaned_commands overlay_port receiver_port dar_ip dar_port es fs cs set =
    let nodes = concat_map (node_teardown overlay_port receiver_port dar_ip dar_port) fs in
    commands-append (es ++ nodes) (concat_map sender_teardown fs)
    ∙ ap₂ ◌++◌
        (commands-append es nodes
          ∙ ap₂ ◌++◌ set (node_teardown-commands overlay_port receiver_port dar_ip dar_port fs)
          ∙ append-nil cs)
        (clean-delete_command fs)

module _ (ipt : Iptables) (stun : Bytes → Bytes) (net : Network)
    (overlay_port receiver_port : ℕ) where
  open ipt use {Table, Rule, IsRule, rule_of, rules}

  -- Without a STUN server, from a state that has run nothing yet, with both lists of the receiver of
  -- alerts intact, a first source, and a source, a destination and a node for every pair of indices:
  -- setup_each_flow and then clean_rules run to their ends. After the first the sender's table has
  -- the two rules of each flow at its end; after both it is the table it was, if iptables accepts
  -- these rules and none of them was in it.
  pub clean_rules-restores :
      (s : State) (fs : List Flow) (dar_ip : Bytes) (alerts : List HijackAlert)
      (paths : List PathStatus) (t : Table)
      → s.effects ≡ []
      → FlowsAt net s.srcs (grid net.num_dsts 0 net.num_srcs) fs
      → get_elem? s.srcs 0 ≡ some dar_ip
      → IsDar s.dar alerts paths
      → All IsRule (concat_map sender_rules fs)
      → All (λ r. LacksRule ipt r (rules t)) (map rule_of (concat_map sender_rules fs))
      → (s' : State) × (s'' : State) × (setup_each_flow stun net overlay_port receiver_port false s
          ≡ some s')
        × (clean_rules net overlay_port receiver_port s' ≡ some s'')
        × (rules (run_all ipt (commands s'.effects) t)
            ≡ rules t ++ map rule_of (concat_map sender_rules fs))
        × (rules (run_all ipt (commands s''.effects) t) ≡ rules t)
  clean_rules-restores s fs dar_ip alerts paths t idle at first v accepted fresh =
      let texts = concat_map sender_rules fs in
      let (s', ran, srcs, ip, port, did, held) =
        setup_each_flow-IsDar stun net overlay_port receiver_port s fs dar_ip alerts paths at first
          v in
      let set : commands s'.effects ≡ map append_command texts =
        ap commands
          (did ∙ ap (λ es. es ++ concat_map (flow_setup overlay_port receiver_port dar_ip) fs) idle)
        ∙ setup-append_command overlay_port receiver_port dar_ip fs in
      let nodes = concat_map (node_teardown overlay_port receiver_port s'.dar_ip s'.dar_port) fs in
      let there =
        subst (λ ss. FlowsAt net ss (grid net.num_dsts 0 net.num_srcs) fs) (sym srcs) at in
      let cleaned : commands ((s'.effects ++ nodes) ++ concat_map sender_teardown fs)
          ≡ map append_command texts ++ map delete_command texts =
        cleaned_commands overlay_port receiver_port s'.dar_ip s'.dar_port s'.effects fs
          (map append_command texts) set in
      let up : rules (run_all ipt (map append_command texts) t) ≡ rules t ++ map rule_of texts =
        run_all-appends ipt texts t accepted in
      (
        s',
        _,
        ran,
        clean_rules_lem net overlay_port receiver_port s' fs there,
        ap (λ cs. rules (run_all ipt cs t)) set ∙ up,
        ap (λ cs. rules (run_all ipt cs t)) cleaned
            ∙ ap rules (run_all-append ipt (map append_command texts) (map delete_command texts) t)
            ∙ run_all-deletes ipt texts (run_all ipt (map append_command texts) t) accepted
            ∙ ap (erase_all ipt.same (map rule_of texts)) up
            ∙ erase_all-appended ipt (map rule_of texts) (rules t) fresh,
      )
