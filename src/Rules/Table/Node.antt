-- ===== src/Rules/Table/Node.antt =====
-- The NAT table of an overlay node that serves senders.
use premium.Base.{
  List, [], ◌∷◌, ◌++◌, ◌≡◌, refl, ap, sym, ◌∙◌, some, map, All, drop, ◌==◌, Bool-cases, inl, inr,
  if◌then◌else◌, concat_map, append_assoc, append-nil, All-append,
}
use premium.Text.{Bytes}
use premium.Text.Decimal.{decimal}
use premium.Rules.Nat.{forward_paths, remove_rules}
use premium.Rules.Node.{NodeAction, send_type, system, create_thread, cancel_thread, start_overlay}
use premium.Rules.Protocol.Flow.{FlowRules, IsFlow, node_commands}
use premium.Rules.Start.Main.{client_of, flow_actions, start_overlay-exchanges}
use premium.Rules.Table.{
  erase_all, Iptables, run_all, LacksRule, run_all-append, run_all-appends, run_all-deletes,
  erase_all-appended, erase_all-append,
}

-- The commands for system among what a node does.
abbrev pub node_system : List NodeAction → List Bytes
node_system [] = []
node_system (send_type t ∷ as') = node_system as'
node_system (system c ∷ as') = c ∷ node_system as'
node_system (create_thread c ∷ as') = node_system as'
node_system (cancel_thread ∷ as') = node_system as'

node_system-append :
    (xs ys : List NodeAction) → node_system (xs ++ ys) ≡ node_system xs ++ node_system ys
node_system-append [] ys = refl
node_system-append (send_type t ∷ xs) ys = node_system-append xs ys
node_system-append (system c ∷ xs) ys = ap (λ cs. c ∷ cs) (node_system-append xs ys)
node_system-append (create_thread c ∷ xs) ys = node_system-append xs ys
node_system-append (cancel_thread ∷ xs) ys = node_system-append xs ys

node_system-map : (cs : List Bytes) → node_system (map system cs) ≡ cs
node_system-map [] = refl
node_system-map (c ∷ cs) = ap (λ ds. c ∷ ds) (node_system-map cs)

-- The four rules of a flow at a node, as texts.
abbrev pub node_rules : Bytes → FlowRules → List Bytes
node_rules overlay f = map (drop 18) (forward_paths overlay f.src f.dst (decimal f.port))

flow_system :
    (overlay : Bytes) (f : FlowRules)
    → node_system (flow_actions overlay f) ≡ node_commands overlay f.src f.dst f.port f.type
flow_system overlay f = elim (Bool-cases (f.type == 1)) [
  | inl e ↦ rw (e, node_system-append, node_system-map, append-nil) refl
  | inr e ↦ rw (e, node_system-append, node_system-map, append-nil) refl
]

-- The flow taken down, from what the sender's and the node's buffers held for its setup.
abbrev pub taken_down : FlowRules → FlowRules
taken_down f = record f { type = 0 }

pub taken_down-IsFlow : (fs : List FlowRules) → All IsFlow fs → All IsFlow (map taken_down fs)
taken_down-IsFlow [] h = tt
taken_down-IsFlow (f ∷ fs) (h, hs) = (
  record {
    src_field = h.src_field;
    dar_field = h.dar_field;
    dst_field = h.dst_field;
    src_fits = h.src_fits;
    dar_fits = h.dar_fits;
    dst_fits = h.dst_fits;
    port_fits = h.port_fits;
    dar_port_fits = h.dar_port_fits;
  },
  taken_down-IsFlow fs hs,
)

module _ (ipt : Iptables) (overlay : Bytes) where
  open ipt use {Table, Rule, same, IsRule, rule_of, rules}

  abbrev pub flow_rules : FlowRules → List Rule
  flow_rules f = map rule_of (node_rules overlay f)

  -- The table as the senders see it: a flow adds its rules, or takes them out.
  abbrev pub replay : List FlowRules → List Rule → List Rule
  replay [] rs = rs
  replay (f ∷ fs) rs =
      replay fs (if f.type == 1 then rs ++ flow_rules f else erase_all same (flow_rules f) rs)

  abbrev pub AreRules : FlowRules → Type 0
  AreRules f = All IsRule (node_rules overlay f)

  flow_commands-rules :
      (f : FlowRules) (t : Table)
      → AreRules f
      → rules (run_all ipt (node_commands overlay f.src f.dst f.port f.type) t)
        ≡ (if f.type == 1 then rules t ++ flow_rules f else erase_all same (flow_rules f) (rules t))
  unfolding forward_paths remove_rules
  flow_commands-rules f t h = elim (Bool-cases (f.type == 1)) [
    | inl e ↦ rw e (run_all-appends ipt (node_rules overlay f) t h)
    | inr e ↦ rw e (run_all-deletes ipt (node_rules overlay f) t h)
  ]

  commands-replay :
      (fs : List FlowRules) (t : Table)
      → All AreRules fs
      → rules (run_all ipt (node_system (concat_map (flow_actions overlay) fs)) t)
        ≡ replay fs (rules t)
  commands-replay [] t h = refl
  commands-replay (f ∷ fs) t (h, hs) =
      let cs = node_commands overlay f.src f.dst f.port f.type in
      ap (λ ds. rules (run_all ipt ds t))
        (node_system-append (flow_actions overlay f) (concat_map (flow_actions overlay) fs)
          ∙ ap (λ ds. ds ++ node_system (concat_map (flow_actions overlay) fs))
              (flow_system overlay f))
      ∙ ap rules (run_all-append ipt cs (node_system (concat_map (flow_actions overlay) fs)) t)
      ∙ commands-replay fs (run_all ipt cs t) hs
      ∙ ap (replay fs) (flow_commands-rules f t h)

  -- Whatever senders a node serves, one after the other, with addresses that are fields of a rule
  -- expression and rules that iptables accepts, setting flows up or taking them down in any order:
  -- its table is then the one that adding each flow's four rules at the end, and taking the first of
  -- each out again, makes of the table it had.
  pub start_overlay-replay :
      (fs : List FlowRules) (t : Table)
      → All IsFlow fs
      → All AreRules fs
      → (actions : List NodeAction) × (start_overlay overlay (map client_of fs) ≡ some actions)
        × (rules (run_all ipt (node_system actions) t) ≡ replay fs (rules t))
  start_overlay-replay fs t h accepted = (
    concat_map (flow_actions overlay) fs,
    start_overlay-exchanges overlay fs h,
    commands-replay fs t accepted,
  )

  replay-up :
      (fs : List FlowRules) (rs : List Rule)
      → All (λ f. f.type ≡ 1) fs
      → replay fs rs ≡ rs ++ concat_map flow_rules fs
  replay-up [] rs h = sym (append-nil rs)
  replay-up (f ∷ fs) rs (h, hs) =
      rw h (replay-up fs (rs ++ flow_rules f) hs ∙ append_assoc rs (flow_rules f) _)

  replay-down :
      (fs : List FlowRules) (rs : List Rule)
      → replay (map taken_down fs) rs ≡ erase_all same (concat_map flow_rules fs) rs
  replay-down [] rs = refl
  replay-down (f ∷ fs) rs =
      replay-down fs (erase_all same (flow_rules f) rs)
      ∙ sym (erase_all-append ipt (flow_rules f) (concat_map flow_rules fs) rs)

  replay-append :
      (fs gs : List FlowRules) (rs : List Rule) → replay (fs ++ gs) rs ≡ replay gs (replay fs rs)
  replay-append [] gs rs = refl
  replay-append (f ∷ fs) gs rs = replay-append fs gs _

  AreRules-down : (fs : List FlowRules) → All AreRules fs → All AreRules (map taken_down fs)
  AreRules-down [] h = tt
  AreRules-down (f ∷ fs) (h, hs) = (h, AreRules-down fs hs)

  map-append :
      (fs gs : List FlowRules) → map client_of (fs ++ gs) ≡ map client_of fs ++ map client_of gs
  map-append [] gs = refl
  map-append (f ∷ fs) gs = ap (λ cs. client_of f ∷ cs) (map-append fs gs)

  -- A node that sets up any flows, one after the other, and then takes the same ones down in the same
  -- order has the table that it had before, if none of their rules was in it: for addresses that are
  -- fields of a rule expression and rules that iptables accepts.
  pub start_overlay-restores :
      (fs : List FlowRules) (t : Table)
      → All IsFlow fs
      → All AreRules fs
      → All (λ f. f.type ≡ 1) fs
      → All (λ r. LacksRule ipt r (rules t)) (concat_map flow_rules fs)
      → (actions : List NodeAction) × (start_overlay overlay
            (map client_of fs ++ map client_of (map taken_down fs))
          ≡ some actions)
        × (rules (run_all ipt (node_system actions) t) ≡ rules t)
  start_overlay-restores fs t h accepted up fresh =
      let gs = map taken_down fs in
      let (actions, ran, left) =
        start_overlay-replay (fs ++ gs) t (All-append _ fs gs h (taken_down-IsFlow fs h))
          (All-append _ fs gs accepted (AreRules-down fs accepted)) in
      (
        actions,
        ap (start_overlay overlay) (sym (map-append fs gs)) ∙ ran,
        left
            ∙ replay-append fs gs (rules t)
            ∙ ap (replay gs) (replay-up fs (rules t) up)
            ∙ replay-down fs (rules t ++ concat_map flow_rules fs)
            ∙ erase_all-appended ipt (concat_map flow_rules fs) (rules t) fresh,
      )
