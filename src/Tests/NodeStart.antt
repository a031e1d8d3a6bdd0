-- ===== src/Tests/NodeStart.antt =====
-- A node with a loopback and one other interface, and one sender.
use premium.Base.{
  List, [], ◌∷◌, ◌++◌, ◌≡◌, refl, true, false, none, some, inl, inr, arith, map, All,
}
use premium.Text.{codes, str_eq}
use premium.Sender.Interfaces.{IfAddrs, other_family, inet, is_loopback}
use premium.Rules.Start.{NodeArguments, NodeEnvironment, node_main}
use premium.Rules.Start.Main.{IsPassed, client_of, main_effects, node_main-primary}
use premium.Rules.Start.Public.{node_main-public}
use premium.Stun.Answer.{dotted, response}
use premium.Tests.Stun.{software, transaction, software-IsOther}
use premium.Tests.{relay_a}
use premium.Tests.Protocol.{flow, flow-IsFlow}

abbrev before : List IfAddrs
before =
    record { ifa_name = codes "lo"; ifa_addr = inet (codes "127.0.0.1") }
    ∷ record { ifa_name = codes "eth0"; ifa_addr = other_family }
    ∷ []

before-IsPassed : All IsPassed before
unfolding str_eq
before-IsPassed = (inl refl, (inr refl, tt))

eth0-named : is_loopback (codes "eth0") ≡ false
unfolding str_eq
eth0-named = refl

abbrev argv : NodeArguments
argv = record {
  manager_proxy_addr = codes "10.0.0.9";
  manager_proxy_port = 7000;
  node_port = 9000;
  use_stun_server = false;
}

abbrev node_environment : NodeEnvironment
node_environment = record {
  interfaces = before ++ record { ifa_name = codes "eth0"; ifa_addr = inet relay_a } ∷ [];
  stun_sent = false;
  stun_answer = none;
  stun_stale = [];
  reserved = codes "?";
}

node_main-primary_example :
    node_main 0 node_environment argv (map client_of (flow ∷ []))
    ≡ some (main_effects relay_a argv (flow ∷ []))
node_main-primary_example =
    node_main-primary 0 node_environment argv before (codes "eth0") relay_a [] (flow ∷ []) refl refl
      before-IsPassed eth0-named (omega arith) (omega arith) (omega arith) (flow-IsFlow, tt)

abbrev public_argv : NodeArguments
public_argv = record {
  manager_proxy_addr = codes "10.0.0.9";
  manager_proxy_port = 7000;
  node_port = 9000;
  use_stun_server = true;
}

abbrev public_environment : NodeEnvironment
public_environment = record {
  interfaces = [];
  stun_sent = true;
  stun_answer = some (response transaction (software ∷ []) 8888 193 136 221 10 (9 ∷ []));
  stun_stale = [];
  reserved = codes "?";
}

node_main-public_example :
    node_main 2 public_environment public_argv (map client_of (flow ∷ []))
    ≡ some (main_effects (dotted 193 136 221 10) public_argv (flow ∷ []))
node_main-public_example =
    node_main-public public_environment public_argv transaction (software ∷ []) 8888 193 136 221 10
      (9 ∷ []) (flow ∷ []) refl refl refl refl (software-IsOther, tt)
      (omega arith, (omega arith, (omega arith, (omega arith, tt)))) (omega arith) (omega arith)
      (flow-IsFlow, tt)
