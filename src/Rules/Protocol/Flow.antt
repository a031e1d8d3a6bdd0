-- ===== src/Rules/Protocol/Flow.antt =====
-- The runs in which a sender sets one flow up, or takes it down, at a node.
use premium.Base.{
  ℕ, ◌<◌, List, [], ◌∷◌, ◌++◌, ◌≡◌, ◌⊎◌, inl, inr, refl, true, arith, map, ◌==◌, Bool-cases,
  if◌then◌else◌, length, All, replicate, subst,
}
use premium.Text.{Bytes, c_string}
use premium.Wire.{buffer_length, send_rule, c_string-recv_into}
use premium.Rules.Spec.{
  ip_addr_length, action, build_hop_forward_rules_spec, build_hop_run_darshana_spec, rule_specs_fit,
  darshana_monitoring_mode, darshana_metrics_thresholds,
}
use premium.Rules.Nat.{forward_paths, remove_rules}
use premium.Rules.Node.{NodeAction, system, create_thread, cancel_thread, run_darshana_client}
use premium.Rules.Exchange.{IsField, forward-NoNul, darshana-NoNul, forward_tokens, darshana_tokens}
use premium.Text.Decimal.{decimal}
use premium.Rules.Protocol.{closed, Config, has_text}
use premium.Rules.Protocol.Stages.{Exchange, IsExchange, IsQuiet}
use premium.Rules.Protocol.Order.{
  Step, Run, finished, Run-Stage, total, Stage-GoesOn, Stage-returned,
}

-- The commands of a node on a forwarding expression, and what it does on the Darshana expression.
abbrev pub node_commands : Bytes → Bytes → Bytes → ℕ → ℕ → List Bytes
node_commands overlay src dst port type =
    if type == 1
    then forward_paths overlay src dst (decimal port)
    else remove_rules overlay src dst (decimal port)

abbrev pub darshana_action : Bytes → Bytes → ℕ → Bytes → ℕ → ℕ → NodeAction
darshana_action overlay dar dar_port dst port type =
    if type == 1
    then create_thread (
        run_darshana_client overlay dar (decimal dar_port) dst (decimal port)
          darshana_monitoring_mode darshana_metrics_thresholds)
    else cancel_thread

-- A flow: its node, its addresses and ports, whether it is set up, and what the sender's buffers, the
-- node's buffer and the rest of it hold.
pub record FlowRules : Type 0 where
  pub overlay : Bytes
  pub src : Bytes
  pub dar : Bytes
  pub dst : Bytes
  pub port : ℕ
  pub dar_port : ℕ
  pub type : ℕ
  pub junk : Bytes
  pub stale : Bytes
  pub behind : Bytes

pub record IsFlow (f : FlowRules) : Type 0 where
  pub src_field : IsField f.src
  pub dar_field : IsField f.dar
  pub dst_field : IsField f.dst
  pub src_fits : length f.src < ip_addr_length
  pub dar_fits : length f.dar < ip_addr_length
  pub dst_fits : length f.dst < ip_addr_length
  pub port_fits : f.port < 65536
  pub dar_port_fits : f.dar_port < 65536

abbrev pub exchange_of : FlowRules → Exchange
exchange_of f = record {
  forwarding_rule = send_rule (build_hop_forward_rules_spec f.src f.dst f.port f.type) f.junk;
  darshana_rule =
      send_rule (build_hop_run_darshana_spec f.dar f.dar_port f.dst f.port f.type) f.junk;
  overlay_addr = f.overlay;
  stale = f.stale;
  behind = f.behind;
  type = action f.type;
  forwarding = map system (node_commands f.overlay f.src f.dst f.port f.type);
  darshana = darshana_action f.overlay f.dar f.dar_port f.dst f.port f.type ∷ [];
}

answer_text :
    (type : ℕ) (behind : Bytes) → has_text (c_string (send_rule (action type) behind)) ≡ true
unfolding c_string
answer_text type behind = elim (Bool-cases (type == 1)) [ inl e ↦ rw e refl | inr e ↦ rw e refl ]

commands-IsQuiet : (cs : List Bytes) → All IsQuiet (map system cs)
commands-IsQuiet [] = tt
commands-IsQuiet (c ∷ cs) = (tt, commands-IsQuiet cs)

action-IsQuiet :
    (overlay dar dst : Bytes) (dar_port port type : ℕ)
    → All IsQuiet (darshana_action overlay dar dar_port dst port type ∷ [])
action-IsQuiet overlay dar dst dar_port port type = elim (Bool-cases (type == 1)) [
  | inl e ↦ rw e (tt, tt)
  | inr e ↦ rw e (tt, tt)
]

pub exchange_of-IsExchange : (f : FlowRules) → IsFlow f → IsExchange (exchange_of f)
exchange_of-IsExchange f h =
    let fits =
      rule_specs_fit f.src f.dst f.port f.dar_port f.type h.src_fits h.dst_fits h.port_fits
        h.dar_port_fits in
    let dar_fits =
      rule_specs_fit f.dar f.dst f.port f.dar_port f.type h.dar_fits h.dst_fits h.port_fits
        h.dar_port_fits in
    record {
      reads_forwarding =
          forward_tokens f.overlay f.src f.dst f.port f.type _ h.src_field h.dst_field (
            c_string-recv_into _ f.junk f.stale
              (forward-NoNul f.src f.dst f.port f.type h.src_field h.dst_field) fits.0);
      reads_darshana =
          darshana_tokens f.overlay f.dar f.dst f.dar_port f.port f.type _ h.dar_field h.dst_field (
            c_string-recv_into _ f.junk (replicate buffer_length 0)
              (darshana-NoNul f.dar f.dst f.dar_port f.port f.type h.dar_field h.dst_field)
              dar_fits.1);
      answer = answer_text f.type f.behind;
      quiet_forwarding = commands-IsQuiet (node_commands f.overlay f.src f.dst f.port f.type);
      quiet_darshana = action-IsQuiet f.overlay f.dar f.dst f.dar_port f.port f.type;
    }

four_commands :
    (overlay src dst : Bytes) (port type : ℕ)
    → length (map system (node_commands overlay src dst port type)) ≡ 4
unfolding forward_paths remove_rules
four_commands overlay src dst port type = elim (Bool-cases (type == 1)) [
  | inl e ↦ rw e refl
  | inr e ↦ rw e refl
]

total-flow : (f : FlowRules) → total (exchange_of f) ≡ 14
total-flow f = omega (arith, four_commands f.overlay f.src f.dst f.port f.type)

-- For addresses that are fields of a rule expression and ports below 65536: whichever of
-- setup_overlay_node and the node moves first each time, neither end gets stuck. A run of less than
-- 14 steps goes on; a run of 14 steps is finished: the sender has returned, nothing is on its way,
-- and the node has run its four commands and then started or cancelled its Darshana client. No run
-- is longer.
pub Run-GoesOn :
    (f : FlowRules) (n : ℕ) (c : Config)
    → IsFlow f
    → Run (exchange_of f) n c
    → ((n < 14) × ((d : Config) × Step (exchange_of f) c d))
      ⊎ ((n ≡ 14) × (c ≡ finished (exchange_of f)))
Run-GoesOn f n c h run =
    let ok = exchange_of-IsExchange f h in
    subst
      (λ k.
        ((n < k) × ((d : Config) × Step (exchange_of f) c d))
        ⊎ ((n ≡ k) × (c ≡ finished (exchange_of f))))
      (total-flow f) (Stage-GoesOn (exchange_of f) n c ok (Run-Stage (exchange_of f) ok run))

-- For addresses that are fields of a rule expression and ports below 65536, when setup_overlay_node
-- returns, the node has run its four commands, in order, and at most the action on its Darshana client
-- after them: it answers the first expression before it runs them, but the second one only afterwards.
pub returned_after_commands :
    (f : FlowRules) (n : ℕ) (c : Config)
    → IsFlow f
    → Run (exchange_of f) n c
    → c.sender ≡ closed
    → (xs : List NodeAction) × (ys : List NodeAction) × (c.done
        ≡ map system (node_commands f.overlay f.src f.dst f.port f.type) ++ xs)
      × (xs ++ ys ≡ darshana_action f.overlay f.dar f.dar_port f.dst f.port f.type ∷ [])
returned_after_commands f n c h run is_closed =
    Stage-returned (exchange_of f) n c (Run-Stage (exchange_of f) (exchange_of-IsExchange f h) run)
      is_closed
