-- ===== src/Tests/Table.antt =====
-- A table that is the list of the rules' texts, under the commands of two flows.
use premium.Base.{
  List, [], ◌∷◌, ◌++◌, ◌≡◌, refl, some, map, All, drop, false, true, concat_map, if◌then◌else◌, ◌↔◌,
  subst, arith,
}
use premium.Text.{Bytes, codes, starts_with, str_eq, str_eq_sound, str_eq_refl}
use premium.Rules.Nat.{forward_paths, set_sender_own_rules_iptables}
use premium.Rules.Node.{NodeAction, start_overlay}
use premium.Rules.Start.Main.{client_of}
use premium.Rules.Table.{Iptables, append_command, delete_command, erase, run_all}
use premium.Rules.Table.Node.{
  node_system, node_rules, taken_down, taken_down-IsFlow, replay, start_overlay-replay,
  start_overlay-restores,
}
use premium.Sender.State.{State}
use premium.Sender.Flows.{setup_each_flow, clean_rules}
use premium.Sender.Flows.Clean.{commands}
use premium.Sender.Flows.Stun.{public_flow, clean_rules-stun_leaves}
use premium.Sender.Flows.Table.{sender_rules, clean_rules-restores}
use premium.Tests.{relay_a}
use premium.Tests.Dar.{dar-IsDar, path}
use premium.Tests.Sender.{net, state, flows, flows-FlowsAt, no_stun}
use premium.Tests.Protocol.{flow, flow-IsFlow}

run : Bytes → List Bytes → List Bytes
unfolding starts_with
run c t =
    if starts_with (codes "iptables -t nat -A") c
    then t ++ drop 18 c ∷ []
    else erase str_eq (drop 18 c) t

run_appends :
    (text : Bytes) (t : List Bytes) → Unit {0} → run (append_command text) t ≡ t ++ text ∷ []
unfolding run
run_appends text t h = refl

run_deletes :
    (text : Bytes) (t : List Bytes) → Unit {0} → run (delete_command text) t ≡ erase str_eq text t
unfolding run
run_deletes text t h = refl

str_eq_iff : (a b : Bytes) → (str_eq a b ≡ true) ↔ (a ≡ b)
str_eq_iff a b = (str_eq_sound a b, λ e. subst (λ c. str_eq a c ≡ true) e (str_eq_refl a))

abbrev texts : Iptables
texts = record {
  Table = List Bytes;
  Rule = Bytes;
  same = str_eq;
  same_iff = str_eq_iff;
  IsRule = λ text. Unit {0};
  rule_of = λ text. text;
  run = run;
  rules = λ t. t;
  appends = run_appends;
  deletes = run_deletes;
}

-- A table with a rule of another program.
abbrev other_rule : List Bytes
other_rule = codes " INPUT -p udp -j SNAT --to-source 10.9.9.9" ∷ []

flow_lacking : All (λ r. All (λ q. str_eq r q ≡ false) other_rule) (node_rules relay_a flow)
unfolding forward_paths str_eq
flow_lacking = ((refl, tt), ((refl, tt), ((refl, tt), ((refl, tt), tt))))

start_overlay-replay_example :
    (actions : List NodeAction) × (start_overlay relay_a
        (map client_of (flow ∷ taken_down flow ∷ []))
      ≡ some actions)
    × (run_all texts (node_system actions) other_rule
        ≡ replay texts relay_a (flow ∷ taken_down flow ∷ []) other_rule)
unfolding forward_paths
start_overlay-replay_example =
    start_overlay-replay texts relay_a (flow ∷ taken_down flow ∷ []) other_rule
      (flow-IsFlow, taken_down-IsFlow (flow ∷ []) (flow-IsFlow, tt))
      ((tt, (tt, (tt, (tt, tt)))), ((tt, (tt, (tt, (tt, tt)))), tt))

start_overlay-restores_example :
    (actions : List NodeAction) × (start_overlay relay_a
        (client_of flow ∷ client_of (taken_down flow) ∷ [])
      ≡ some actions)
    × (run_all texts (node_system actions) other_rule ≡ other_rule)
unfolding forward_paths
start_overlay-restores_example =
    start_overlay-restores texts relay_a (flow ∷ []) other_rule (flow-IsFlow, tt)
      ((tt, (tt, (tt, (tt, tt)))), tt) (refl, tt) flow_lacking

flows_lacking : All (λ r. All (λ q. str_eq r q ≡ false) other_rule) (concat_map sender_rules flows)
unfolding set_sender_own_rules_iptables str_eq
flows_lacking = ((refl, tt), ((refl, tt), ((refl, tt), ((refl, tt), tt))))

clean_rules-restores_example :
    (s' : State) × (s'' : State) × (setup_each_flow no_stun net 9000 8080 false state ≡ some s')
    × (clean_rules net 9000 8080 s' ≡ some s'')
    × (run_all texts (commands s'.effects) other_rule
        ≡ other_rule ++ map (λ text. text) (concat_map sender_rules flows))
    × (run_all texts (commands s''.effects) other_rule ≡ other_rule)
unfolding set_sender_own_rules_iptables
clean_rules-restores_example =
    clean_rules-restores texts no_stun net 9000 8080 state flows (codes "10.0.0.1") [] (path ∷ [])
      other_rule refl flows-FlowsAt refl dar-IsDar (tt, (tt, (tt, (tt, tt)))) flows_lacking

abbrev mapped_to : Bytes → Bytes
mapped_to addr = codes "9." ++ addr

public_lacking :
    All
      (λ r. All (λ q. str_eq r q ≡ false) (other_rule ++ concat_map sender_rules flows))
      (concat_map sender_rules (map (public_flow mapped_to) flows))
unfolding set_sender_own_rules_iptables str_eq
public_lacking = (
  (refl, (refl, (refl, (refl, (refl, tt))))),
  (
    (refl, (refl, (refl, (refl, (refl, tt))))),
    ((refl, (refl, (refl, (refl, (refl, tt))))), ((refl, (refl, (refl, (refl, (refl, tt))))), tt)),
  ),
)

clean_rules-stun_leaves_example :
    (s' : State) × (s'' : State) × (setup_each_flow mapped_to net 9000 8080 true state ≡ some s')
    × (clean_rules net 9000 8080 s' ≡ some s'')
    × (run_all texts (commands s''.effects) other_rule
        ≡ other_rule ++ map (λ text. text) (concat_map sender_rules flows))
unfolding set_sender_own_rules_iptables
clean_rules-stun_leaves_example =
    clean_rules-stun_leaves texts mapped_to net 9000 8080 state flows [] (path ∷ []) other_rule refl
      refl (omega arith) flows-FlowsAt dar-IsDar (tt, (tt, (tt, (tt, tt))))
      (tt, (tt, (tt, (tt, tt)))) public_lacking
