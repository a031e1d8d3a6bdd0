-- ===== src/Sender/Flows/Stun.antt =====
-- setup_each_flow and clean_rules with a STUN server, for a receiver with one address: the sender's own
-- rules are set with its local addresses, and what is deleted are rules with its public ones.
use premium.Base.{
  ℕ, zero, suc, ◌+◌, ◌<◌, List, [], ◌∷◌, ◌++◌, ◌≡◌, ◌≢◌, refl, ap, sym, ◌∙◌, true, some, arith, map,
  All, get_elem?, set, length, concat_map, append-nil, append_assoc, get_elem?-set,
  get_elem?-set_later, subst, get_elem?-some, length-set,
}
use premium.Text.{Bytes}
use premium.Dar.Alerts.{HijackAlert}
use premium.Dar.Paths.{PathStatus}
use premium.Dar.Receiver.{Dar, add_monitored_path}
use premium.Dar.Receiver.Loop.{IsDar, add_monitored_path-IsDar}
use premium.Rules.Table.{
  append_command, delete_command, Iptables, run_all, LacksRule, run_all-append, run_all-appends,
  run_all-deletes, erase, erase_all,
}
use premium.Rules.Nat.{set_sender_own_rules_iptables}
use premium.Rules.Spec.{build_hop_forward_rules_spec, build_hop_run_darshana_spec}
use premium.Sender.State.{
  Effect, system, setup_overlay_node, create_darshana, Network, State, run_sender_darshana,
  dar_port_number, darshana_server_port, darshana_server_port_number,
}
use premium.Sender.Flows.{setup_flow, setup_each_flow, clean_rules}
use premium.Sender.Flows.Order.{visit, grid, for_each-grid}
use premium.Sender.Flows.Setup.{Flow, FlowsAt, flow_at, flow_at-parts}
use premium.Sender.Flows.Clean.{
  commands, commands-append, sender_teardown, node_teardown, clean_rules_lem,
}
use premium.Sender.Flows.Table.{sender_rules, cleaned_commands}

pub get_elem?-set_other :
    (xs : List Bytes) (i k : ℕ) (v : Bytes) → i ≢ k → get_elem? (set xs i v) k ≡ get_elem? xs k
get_elem?-set_other [] i k v h = refl
get_elem?-set_other (x ∷ xs) zero zero v h = absurd (h refl)
get_elem?-set_other (x ∷ xs) zero (suc k) v h = refl
get_elem?-set_other (x ∷ xs) (suc i) zero v h = refl
get_elem?-set_other (x ∷ xs) (suc i) (suc k) v h = get_elem?-set_other xs i k v (λ e. h (ap suc e))

get_elem?-lt : (xs : List Bytes) (i : ℕ) (v : Bytes) → get_elem? xs i ≡ some v → i < length xs
get_elem?-lt [] i v h = absurd (cc)
get_elem?-lt (x ∷ xs) zero v h = omega arith
get_elem?-lt (x ∷ xs) (suc i) v h = omega (arith, get_elem?-lt xs i v h)

-- A flow with the address that the STUN server has for its source.
abbrev pub public_flow : (Bytes → Bytes) → Flow → Flow
public_flow stun f = record f { src = stun f.src }

FlowsAt-set :
    (net : Network) (srcs : List Bytes) (i from n : ℕ) (v : Bytes) (fs : List Flow)
    → i < from
    → FlowsAt net srcs (grid 1 from n) fs
    → FlowsAt net (set srcs i v) (grid 1 from n) fs
FlowsAt-set net srcs i from zero v [] lt at = tt
FlowsAt-set net srcs i from zero v (f ∷ fs) lt at = elim at [ ]
FlowsAt-set net srcs i from (suc n) v [] lt at = elim at [ ]
FlowsAt-set net srcs i from (suc n) v (f ∷ fs) lt (at, rest) = (
  rw (get_elem?-set_other srcs i from v (λ e. omega arith)) at,
  FlowsAt-set net srcs i (from + 1) n v fs (omega arith) rest,
)

public_at :
    (stun : Bytes → Bytes) (net : Network) (srcs srcs' : List Bytes) (i : ℕ) (f : Flow)
    → flow_at net srcs i 0 ≡ some f
    → get_elem? srcs' i ≡ some (stun f.src)
    → flow_at net srcs' i 0 ≡ some (public_flow stun f)
public_at stun net srcs srcs' i f at e =
    let (e1, e2, e3, e4) = flow_at-parts net srcs i 0 f at in rw (e1, e, e3, e4) refl

module _ (stun : Bytes → Bytes) (net : Network) (overlay_port receiver_port : ℕ) where
  -- What setting a flow up does: the own rules are set before the STUN server is asked.
  abbrev stun_setup : Bytes → Flow → List Effect
  stun_setup dar_ip f =
      map system (set_sender_own_rules_iptables f.src f.dst f.hop)
      ++ setup_overlay_node f.hop overlay_port
          (build_hop_forward_rules_spec (stun f.src) f.dst receiver_port 1)
          (build_hop_run_darshana_spec dar_ip dar_port_number f.dst darshana_server_port_number 1)
        ∷ create_darshana f.index
            (run_sender_darshana dar_ip dar_port_number (stun f.src) f.hop darshana_server_port)
        ∷ []

  stun_step :
      (s : State) (i : ℕ) (f : Flow) (dar_ip : Bytes) (d : Dar)
      → flow_at net s.srcs i 0 ≡ some f
      → get_elem? (set s.srcs i (stun f.src)) 0 ≡ some dar_ip
      → add_monitored_path (stun f.src) f.hop f.dst s.dar ≡ some d
      → setup_flow stun net overlay_port receiver_port true i 0 s
        ≡ some (record s {
          srcs = set s.srcs i (stun f.src);
          dar_ip = dar_ip;
          dar_port = dar_port_number;
          dar = d;
          effects = s.effects ++ stun_setup dar_ip f;
        })
  unfolding setup_flow
  stun_step s i f dar_ip d at front added =
      let (e1, e2, e3, e4) = flow_at-parts net s.srcs i 0 f at in
      rw (e1, e2, e3, e4, front, added) refl

  stun_commands :
      (dar_ip : Bytes) (f : Flow) (es : List Effect)
      → commands (es ++ stun_setup dar_ip f) ≡ commands es ++ map append_command (sender_rules f)
  unfolding set_sender_own_rules_iptables
  stun_commands dar_ip f es = commands-append es (stun_setup dar_ip f)

  -- All flows: afterwards every source is the public address.
  stun_run :
      (n i : ℕ) (s : State) (fs : List Flow) (alerts : List HijackAlert) (paths : List PathStatus)
      → FlowsAt net s.srcs (grid 1 i n) fs
      → 0 < length s.srcs
      → IsDar s.dar alerts paths
      → (s' : State) × (visit (grid 1 i n) (setup_flow stun net overlay_port receiver_port true) s
          ≡ some s')
        × FlowsAt net s'.srcs (grid 1 i n) (map (public_flow stun) fs)
        × ((k : ℕ) → k < i → get_elem? s'.srcs k ≡ get_elem? s.srcs k)
        × (commands s'.effects
            ≡ commands s.effects ++ map append_command (concat_map sender_rules fs))
  unfolding set_sender_own_rules_iptables
  stun_run zero i s [] alerts paths at some_src v =
      (s, refl, tt, λ k lt. refl, sym (append-nil (commands s.effects)))
  stun_run zero i s (f ∷ fs) alerts paths at some_src v = elim at [ ]
  stun_run (suc n) i s [] alerts paths at some_src v = elim at [ ]
  stun_run (suc n) i s (f ∷ fs) alerts paths (at, rest) some_src v =
      let (e1, e2, e3, e4) = flow_at-parts net s.srcs i 0 f at in
      let srcs = set s.srcs i (stun f.src) in
      let (dar_ip, front) =
        get_elem?-some srcs 0 (omega (arith, length-set s.srcs i (stun f.src))) in
      let (d, added, kept) =
        add_monitored_path-IsDar s.dar alerts paths (stun f.src) f.hop f.dst v in
      let next : State = record s {
        srcs = srcs;
        dar_ip = dar_ip;
        dar_port = dar_port_number;
        dar = d;
        effects = s.effects ++ stun_setup dar_ip f;
      } in
      let (s', ran, held, same, did) =
        stun_run n (i + 1) next fs alerts _
          (FlowsAt-set net s.srcs i (i + 1) n (stun f.src) fs (omega arith) rest)
          (omega (arith, length-set s.srcs i (stun f.src))) kept in
      let public =
        same i (omega arith)
        ∙ get_elem?-set s.srcs i (stun f.src) (get_elem?-lt s.srcs i f.src e2) in
      (
        s',
        rw (stun_step s i f dar_ip d at front added) ran,
        (public_at stun net s.srcs s'.srcs i f at public, held),
        λ k lt. same k (omega arith) ∙ get_elem?-set_later s.srcs i k (stun f.src) lt,
        did
            ∙ ap (λ cs. cs ++ map append_command (concat_map sender_rules fs))
                (stun_commands dar_ip f s.effects)
            ∙ append_assoc (commands s.effects) (map append_command (sender_rules f)) _,
      )

-- Rules that are in no place of a table are not taken out of it.
erase-absent :
    (ipt : Iptables) (r : ipt.Rule) (rs : List ipt.Rule)
    → LacksRule ipt r rs
    → erase ipt.same r rs ≡ rs
erase-absent ipt r [] h = refl
erase-absent ipt r (q ∷ rs) (h, hs) = rw h (ap (λ l. q ∷ l) (erase-absent ipt r rs hs))

erase_all-absent :
    (ipt : Iptables) (added rs : List ipt.Rule)
    → All (λ r. LacksRule ipt r rs) added
    → erase_all ipt.same added rs ≡ rs
erase_all-absent ipt [] rs h = refl
erase_all-absent ipt (r ∷ added) rs (h, hs) =
    ap (erase_all ipt.same added) (erase-absent ipt r rs h) ∙ erase_all-absent ipt added rs hs

-- With a STUN server and one address of the receiver, from a state that has run nothing yet, with a
-- source, both lists of the receiver of alerts intact, and a source and a node for every flow:
-- setup_each_flow and then clean_rules run to their ends, and the sender's table still has the two
-- rules of every flow, behind what it had, if iptables accepts the rules and none with a public
-- address for its source is in it. What teardown deletes are rules with the public addresses.
pub clean_rules-stun_leaves :
    (ipt : Iptables) (stun : Bytes → Bytes) (net : Network) (overlay_port receiver_port : ℕ)
    (s : State) (fs : List Flow) (alerts : List HijackAlert) (paths : List PathStatus)
    (t : ipt.Table)
    → net.num_dsts ≡ 1
    → s.effects ≡ []
    → 0 < length s.srcs
    → FlowsAt net s.srcs (grid 1 0 net.num_srcs) fs
    → IsDar s.dar alerts paths
    → All ipt.IsRule (concat_map sender_rules fs)
    → All ipt.IsRule (concat_map sender_rules (map (public_flow stun) fs))
    → All
        (λ r. LacksRule ipt r (ipt.rules t ++ map ipt.rule_of (concat_map sender_rules fs)))
        (map ipt.rule_of (concat_map sender_rules (map (public_flow stun) fs)))
    → (s' : State) × (s'' : State) × (setup_each_flow stun net overlay_port receiver_port true s
        ≡ some s')
      × (clean_rules net overlay_port receiver_port s' ≡ some s'')
      × (ipt.rules (run_all ipt (commands s''.effects) t)
          ≡ ipt.rules t ++ map ipt.rule_of (concat_map sender_rules fs))
unfolding setup_each_flow
clean_rules-stun_leaves ipt stun net overlay_port receiver_port s fs alerts paths t one idle
      some_src at v accepted accepted_public fresh =
    let local = concat_map sender_rules fs in
    let publics = map (public_flow stun) fs in
    let public = concat_map sender_rules publics in
    let (s', ran, held, same, did) =
      stun_run stun net overlay_port receiver_port net.num_srcs 0 s fs alerts paths at some_src v in
    let set : commands s'.effects ≡ map append_command local =
      did ∙ ap (λ es. commands es ++ map append_command local) idle in
    let wide : FlowsAt net s'.srcs (grid net.num_dsts 0 net.num_srcs) publics =
      subst (λ w. FlowsAt net s'.srcs (grid w 0 net.num_srcs) publics) (sym one) held in
    let nodes =
      concat_map (node_teardown overlay_port receiver_port s'.dar_ip s'.dar_port) publics in
    let cleaned : commands ((s'.effects ++ nodes) ++ concat_map sender_teardown publics)
        ≡ map append_command local ++ map delete_command public =
      cleaned_commands overlay_port receiver_port s'.dar_ip s'.dar_port s'.effects publics
        (map append_command local) set in
    let up : ipt.rules (run_all ipt (map append_command local) t)
        ≡ ipt.rules t ++ map ipt.rule_of local =
      run_all-appends ipt local t accepted in
    (
      s',
      record s' { effects = (s'.effects ++ nodes) ++ concat_map sender_teardown publics },
      for_each-grid net.num_dsts net.num_srcs 0
            (setup_flow stun net overlay_port receiver_port true) s
          ∙ ap
              (λ w.
                visit (grid w 0 net.num_srcs) (setup_flow stun net overlay_port receiver_port true)
                  s)
              one
          ∙ ran,
      clean_rules_lem net overlay_port receiver_port s' publics wide,
      ap (λ cs. ipt.rules (run_all ipt cs t)) cleaned
          ∙ ap ipt.rules
              (run_all-append ipt (map append_command local) (map delete_command public) t)
          ∙ run_all-deletes ipt public (run_all ipt (map append_command local) t) accepted_public
          ∙ ap (erase_all ipt.same (map ipt.rule_of public)) up
          ∙ erase_all-absent ipt (map ipt.rule_of public) _ fresh,
    )
