-- ===== src/Tests/Rules.antt =====
-- The rule expressions and the NAT commands on one flow.
use premium.Base.{◌++◌, ◌≡◌, ◌<◌, some, arith, length}
use premium.Text.{codes}
use premium.Wire.{rule_size}
use premium.Rules.Spec.{build_hop_forward_rules_spec, build_hop_run_darshana_spec, rule_specs_fit}
use premium.Rules.Node.{serve_client}
use premium.Rules.Exchange.{exchange, forwarding_actions, darshana_actions, serve_client-exchange}
use premium.Tests.{sender_ip, receiver_ip, relay_a, sender-IsField, receiver-IsField}

serve_client-exchange_example :
    serve_client relay_a
      (exchange sender_ip sender_ip receiver_ip 8080 10101 1 (codes "x") (codes "y"))
    ≡ some (
        forwarding_actions relay_a sender_ip receiver_ip 8080 1
        ++ darshana_actions relay_a sender_ip 10101 receiver_ip 8080 1)
serve_client-exchange_example =
    serve_client-exchange relay_a sender_ip sender_ip receiver_ip 8080 10101 1 (codes "x")
      (codes "y") sender-IsField sender-IsField receiver-IsField (omega arith) (omega arith)
      (omega arith) (omega arith) (omega arith)

rule_specs_fit_example :
    (length (build_hop_forward_rules_spec sender_ip receiver_ip 8080 1) < rule_size)
    × (length (build_hop_run_darshana_spec sender_ip 10101 receiver_ip 8080 1) < rule_size)
rule_specs_fit_example =
    rule_specs_fit sender_ip receiver_ip 8080 10101 1 (omega arith) (omega arith) (omega arith)
      (omega arith)
