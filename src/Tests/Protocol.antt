-- ===== src/Tests/Protocol.antt =====
-- A run in which the sender returns before the node starts its Darshana client.
use premium.Base.{ℕ, ◌<◌, List, [], ◌∷◌, ◌++◌, ◌≡◌, ◌⊎◌, inl, inr, refl, arith, map}
use premium.Text.{codes, c_string}
use premium.Rules.Nat.{forward_paths}
use premium.Rules.Node.{NodeAction, send_type, system}
use premium.Rules.Protocol.{
  awaits_forwarding, awaits_darshana, closed, recv_darshana, act, Config, sender_step, node_step,
}
use premium.Rules.Protocol.Stages.{Exchange}
use premium.Rules.Protocol.Order.{Step, Run, begin, then, finished}
use premium.Rules.Protocol.Flow.{
  node_commands, darshana_action, FlowRules, IsFlow, exchange_of, exchange_of-IsExchange,
  Run-GoesOn, returned_after_commands,
}
use premium.Tests.{sender_ip, receiver_ip, relay_a, sender-IsField, receiver-IsField}

abbrev pub flow : FlowRules
flow = record {
  overlay = relay_a;
  src = sender_ip;
  dar = sender_ip;
  dst = receiver_ip;
  port = 8080;
  dar_port = 10101;
  type = 1;
  junk = 7 ∷ 9 ∷ [];
  stale = codes "D-old";
  behind = codes "rest";
}

pub flow-IsFlow : IsFlow flow
flow-IsFlow = record {
  src_field = sender-IsField;
  dar_field = sender-IsField;
  dst_field = receiver-IsField;
  src_fits = omega arith;
  dar_fits = omega arith;
  dst_fits = omega arith;
  port_fits = omega arith;
  dar_port_fits = omega arith;
}

abbrev end_config : Config
end_config = record {
  sender = closed;
  pending = act (darshana_action relay_a sender_ip 10101 receiver_ip 8080 1) ∷ [];
  to_node = [];
  to_sender = [];
  done = map system (node_commands relay_a sender_ip receiver_ip 8080 1);
}

abbrev rules : Exchange
rules = exchange_of flow

-- After each of the two messages has been read.
abbrev read_first : Config
read_first = record {
  sender = awaits_forwarding;
  pending = act (send_type rules.type) ∷ (map act rules.forwarding ++ recv_darshana ∷ []);
  to_node = [];
  to_sender = [];
  done = [];
}

abbrev read_second : Config
read_second = record {
  sender = awaits_darshana;
  pending = act (send_type rules.type) ∷ (map act rules.darshana ++ []);
  to_node = [];
  to_sender = [];
  done = rules.forwarding;
}

early : Run rules 13 end_config
unfolding sender_step node_step c_string forward_paths
early =
    let ok = exchange_of-IsExchange flow flow-IsFlow in
    let first : Run rules 2 read_first =
      then (then begin (inl refl)) (inr (rw ok.reads_forwarding refl)) in
    let answered = then (then (then first (inr refl)) (inl refl)) (inl refl) in
    let ran = then (then (then (then answered (inr refl)) (inr refl)) (inr refl)) (inr refl) in
    let second : Run rules 10 read_second = then ran (inr (rw ok.reads_darshana refl)) in
    then (then (then second (inr refl)) (inl refl)) (inl refl)

Run-GoesOn_example :
    ((13 < 14) × ((d : Config) × Step rules end_config d))
    ⊎ ((◌≡◌ {A = ℕ} 13 14) × (end_config ≡ finished rules))
Run-GoesOn_example = Run-GoesOn flow 13 end_config flow-IsFlow early

returned_after_commands_example :
    (xs : List NodeAction) × (ys : List NodeAction) × (map system
        (node_commands relay_a sender_ip receiver_ip 8080 1)
      ≡ map system (node_commands relay_a sender_ip receiver_ip 8080 1) ++ xs)
    × (xs ++ ys ≡ darshana_action relay_a sender_ip 10101 receiver_ip 8080 1 ∷ [])
returned_after_commands_example = returned_after_commands flow 13 end_config flow-IsFlow early refl
