-- ===== src/Rules/Start/Main.antt =====
-- A node from its start to the senders that it serves.
use premium.Base.{
  ℕ, ◌≤◌, ◌<◌, List, [], ◌∷◌, ◌++◌, ◌≡◌, ◌⊎◌, inl, inr, refl, ap, ◌∙◌, true, false, Option, none,
  some, ltb-false, Bool-cases, length, map, All, concat_map, ◌>>=◌,
}
use premium.Text.{Bytes, codes}
use premium.Manager.Register.{within, within_fits, register_dep}
use premium.Sender.Interfaces.{SockAddr, other_family, inet, IfAddrs, is_loopback}
use premium.Rules.Node.{NodeAction, Client, start_overlay}
use premium.Rules.Exchange.{forwarding_actions, darshana_actions, exchange, serve_client-exchange}
use premium.Rules.Protocol.Flow.{FlowRules, IsFlow}
use premium.Rules.Start.{
  ip_addr_size, interface_size, enable_ipv4_forwarding_command, get_primary_ip, node_address,
  node_darshana_server, NodeEffect, register, run_command, create_server, listen_at, serve,
  NodeArguments, NodeEnvironment, node_main,
}

-- The interfaces in front of one are loopbacks or have no IPv4 address.
abbrev pub IsPassed : IfAddrs → Type 0
IsPassed ifa = (is_loopback ifa.ifa_name ≡ true) ⊎ (ifa.ifa_addr ≡ other_family)

abbrev primary_of : Bytes → Bytes → Option Bytes
primary_of name ip = (do interface ← within interface_size name; within ip_addr_size ip)

passed_step :
    (name : Bytes) (addr : SockAddr) (rest : List IfAddrs) (reserved : Bytes)
    → (is_loopback name ≡ true) ⊎ (addr ≡ other_family)
    → get_primary_ip (record { ifa_name = name; ifa_addr = addr } ∷ rest) reserved
      ≡ get_primary_ip rest reserved
unfolding get_primary_ip
passed_step name addr rest reserved (inl lo) = rw lo refl
passed_step name addr rest reserved (inr other) = elim (Bool-cases (is_loopback name)) [
  | inl lo ↦ rw lo refl
  | inr no_lo ↦ rw (no_lo, other) refl
]

-- getPrimaryIP stops at the first IPv4 interface that is no loopback.
get_primary_ip-first :
    (before : List IfAddrs) (name ip : Bytes) (rest : List IfAddrs) (reserved : Bytes)
    → All IsPassed before
    → is_loopback name ≡ false
    → get_primary_ip (before ++ record { ifa_name = name; ifa_addr = inet ip } ∷ rest) reserved
      ≡ primary_of name ip
unfolding get_primary_ip
get_primary_ip-first [] name ip rest reserved h no_lo = rw no_lo refl
get_primary_ip-first (ifa ∷ before) name ip rest reserved (h, hs) no_lo =
    passed_step ifa.ifa_name ifa.ifa_addr
      (before ++ record { ifa_name = name; ifa_addr = inet ip } ∷ rest) reserved h
    ∙ get_primary_ip-first before name ip rest reserved hs no_lo

-- getPrimaryIP writes past its array if the first IPv4 interface that is no loopback has a name of
-- five bytes or more, whatever its address.
pub get_primary_ip_overflows :
    (before : List IfAddrs) (name ip : Bytes) (rest : List IfAddrs) (reserved : Bytes)
    → All IsPassed before
    → is_loopback name ≡ false
    → 5 ≤ length name
    → get_primary_ip (before ++ record { ifa_name = name; ifa_addr = inet ip } ∷ rest) reserved
      ≡ none
get_primary_ip_overflows before name ip rest reserved h no_lo long =
    get_primary_ip-first before name ip rest reserved h no_lo
    ∙ rw (ltb-false (length name) interface_size long) refl

-- A sender that sets up or takes down a flow, as this node receives it.
abbrev pub client_of : FlowRules → Client
client_of f = exchange f.src f.dar f.dst f.port f.dar_port f.type f.junk f.stale

abbrev pub flow_actions : Bytes → FlowRules → List NodeAction
flow_actions overlay f =
    forwarding_actions overlay f.src f.dst f.port f.type
    ++ darshana_actions overlay f.dar f.dar_port f.dst f.port f.type

pub start_overlay-exchanges :
    (overlay : Bytes) (fs : List FlowRules)
    → All IsFlow fs
    → start_overlay overlay (map client_of fs) ≡ some (concat_map (flow_actions overlay) fs)
unfolding start_overlay
start_overlay-exchanges overlay [] h = refl
start_overlay-exchanges overlay (f ∷ fs) (h, hs) =
    rw
      (
        serve_client-exchange overlay f.src f.dar f.dst f.port f.dar_port f.type f.junk f.stale
            h.src_field h.dar_field h.dst_field h.src_fits h.dar_fits h.dst_fits h.port_fits
            h.dar_port_fits,
        start_overlay-exchanges overlay fs hs,
      )
      refl

-- Everything that a node does that has found its address.
abbrev pub main_effects : Bytes → NodeArguments → List FlowRules → List NodeEffect
main_effects ip argv fs =
    register argv.manager_proxy_addr argv.manager_proxy_port
      (codes "out node," ++ (ip ++ codes "\n"))
    ∷ run_command enable_ipv4_forwarding_command
    ∷ create_server (node_darshana_server ip)
    ∷ listen_at ip argv.node_port
    ∷ map serve (concat_map (flow_actions ip) fs)

pub main_runs :
    (fuel : ℕ) (env : NodeEnvironment) (argv : NodeArguments) (ip : Bytes) (fs : List FlowRules)
    → length argv.manager_proxy_addr < 20
    → node_address fuel env argv.use_stun_server ≡ some ip
    → All IsFlow fs
    → node_main fuel env argv (map client_of fs) ≡ some (main_effects ip argv fs)
unfolding node_main register_dep
main_runs fuel env argv ip fs fits found h =
    rw
      (
        within_fits ip_addr_size argv.manager_proxy_addr fits,
        found,
        start_overlay-exchanges ip fs h,
      )
      refl

-- A node without a STUN server, in front of whose first IPv4 interface besides the loopback every
-- interface is a loopback or has an address of another family, none without an address, where the
-- name of that interface has up to four bytes and its address and the address of the manager's proxy
-- have fewer than twenty, registers under that address, enables forwarding, starts Darshana's server
-- on it and listens on it; then it does for each sender in turn, whose addresses are fields of a rule
-- expression, what the sender asks for, with that address in all rules.
pub node_main-primary :
    (fuel : ℕ) (env : NodeEnvironment) (argv : NodeArguments) (before : List IfAddrs)
    (name ip : Bytes) (rest : List IfAddrs) (fs : List FlowRules)
    → argv.use_stun_server ≡ false
    → env.interfaces ≡ before ++ record { ifa_name = name; ifa_addr = inet ip } ∷ rest
    → All IsPassed before
    → is_loopback name ≡ false
    → length name < 5
    → length ip < 20
    → length argv.manager_proxy_addr < 20
    → All IsFlow fs
    → node_main fuel env argv (map client_of fs) ≡ some (main_effects ip argv fs)
node_main-primary fuel env argv before name ip rest fs plain at passed no_lo short short_ip fits h =
    main_runs fuel env argv ip fs fits
      (ap (node_address fuel env) plain
        ∙ ap (λ l. get_primary_ip l env.reserved) at
        ∙ get_primary_ip-first before name ip rest env.reserved passed no_lo
        ∙ rw (within_fits interface_size name short) (within_fits ip_addr_size ip short_ip))
      h
