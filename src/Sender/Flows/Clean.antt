-- ===== src/Sender/Flows/Clean.antt =====
-- clean_rules, and what it leaves of what setup_each_flow did.
use premium.Base.{
  ℕ, List, [], ◌∷◌, ◌++◌, ◌≡◌, refl, sym, ap, ap₂, ◌∙◌, some, map, concat_map, append_assoc,
  append-nil,
}
use premium.Text.{Bytes}
use premium.Rules.Spec.{build_hop_forward_rules_spec, build_hop_run_darshana_spec}
use premium.Rules.Nat.{remove_sender_own_rules_iptables}
use premium.Rules.Teardown.{delete_form, teardown_matches_setup}
use premium.Sender.State.{
  Effect, system, setup_overlay_node, create_darshana, cancel_darshana, open_dar_socket,
  open_receiver_socket, catch_sigusr1, close_dar_socket, close_receiver_socket, close_log_file,
  Network, State, darshana_server_port_number,
}
use premium.Sender.Flows.{clean_node, clean_sender, clean_rules}
use premium.Sender.Flows.Order.{visit, grid, for_each-grid}
use premium.Sender.Flows.Setup.{Flow, FlowsAt, flow_at-parts, flow_setup}

abbrev pub node_teardown : ℕ → ℕ → Bytes → ℕ → Flow → List Effect
node_teardown overlay_port receiver_port dar_ip dar_port f =
    setup_overlay_node f.hop overlay_port (build_hop_forward_rules_spec f.src f.dst receiver_port 0)
      (build_hop_run_darshana_spec dar_ip dar_port f.dst darshana_server_port_number 0)
    ∷ cancel_darshana f.index
    ∷ []

abbrev pub sender_teardown : Flow → List Effect
sender_teardown f = map system (remove_sender_own_rules_iptables f.src f.dst f.hop)

-- The commands for system among some effects.
abbrev pub commands : List Effect → List Bytes
commands [] = []
commands (system c ∷ es) = c ∷ commands es
commands (setup_overlay_node h p r d ∷ es) = commands es
commands (create_darshana i c ∷ es) = commands es
commands (cancel_darshana i ∷ es) = commands es
commands (open_dar_socket ip port ∷ es) = commands es
commands (open_receiver_socket ip port ∷ es) = commands es
commands (catch_sigusr1 ∷ es) = commands es
commands (close_dar_socket ∷ es) = commands es
commands (close_receiver_socket ∷ es) = commands es
commands (close_log_file ∷ es) = commands es

module _ (net : Network) (overlay_port receiver_port : ℕ) where
  clean_node-run :
      (ps : List (ℕ × ℕ)) (s : State) (fs : List Flow)
      → FlowsAt net s.srcs ps fs
      → visit ps (clean_node net overlay_port receiver_port) s
        ≡ some (record s {
          effects =
              s.effects
              ++ concat_map (node_teardown overlay_port receiver_port s.dar_ip s.dar_port) fs;
        })
  unfolding clean_node
  clean_node-run [] s [] at =
      ap (λ es. some (record s { effects = es })) (sym (append-nil s.effects))
  clean_node-run [] s (f ∷ fs) at = elim at [ ]
  clean_node-run (p ∷ ps) s [] at = elim at [ ]
  clean_node-run ((i, j) ∷ ps) s (f ∷ fs) (at, rest) =
      let (e1, e2, e3, e4) = flow_at-parts net s.srcs i j f at in
      rw (e1, e2, e3, e4)
        (clean_node-run ps _ fs rest
          ∙ ap (λ es. some (record s { effects = es }))
              (append_assoc s.effects
                (node_teardown overlay_port receiver_port s.dar_ip s.dar_port f) _))

  clean_sender-run :
      (ps : List (ℕ × ℕ)) (s : State) (fs : List Flow)
      → FlowsAt net s.srcs ps fs
      → visit ps (clean_sender net overlay_port receiver_port) s
        ≡ some (record s { effects = s.effects ++ concat_map sender_teardown fs })
  unfolding clean_sender
  clean_sender-run [] s [] at =
      ap (λ es. some (record s { effects = es })) (sym (append-nil s.effects))
  clean_sender-run [] s (f ∷ fs) at = elim at [ ]
  clean_sender-run (p ∷ ps) s [] at = elim at [ ]
  clean_sender-run ((i, j) ∷ ps) s (f ∷ fs) (at, rest) =
      let (e1, e2, e3, e4) = flow_at-parts net s.srcs i j f at in
      rw (e1, e2, e3, e4)
        (clean_sender-run ps _ fs rest
          ∙ ap (λ es. some (record s { effects = es }))
              (append_assoc s.effects (sender_teardown f) _))

  -- If every pair of indices below the numbers of sources and destinations has a source, a
  -- destination and a node, clean_rules runs to its end: it sends the delete rules to the node of
  -- every flow and cancels the flow's Darshana thread, and then removes the sender's own rules,
  -- both in the order of setup.
  pub clean_rules_lem :
      (s : State) (fs : List Flow)
      → FlowsAt net s.srcs (grid net.num_dsts 0 net.num_srcs) fs
      → clean_rules net overlay_port receiver_port s
        ≡ some (record s {
          effects =
              (s.effects
                ++ concat_map (node_teardown overlay_port receiver_port s.dar_ip s.dar_port) fs)
              ++ concat_map sender_teardown fs;
        })
  unfolding clean_rules
  clean_rules_lem s fs at =
      rw
        (
          for_each-grid net.num_dsts net.num_srcs 0 (clean_node net overlay_port receiver_port) s,
          clean_node-run (grid net.num_dsts 0 net.num_srcs) s fs at,
        )
        (for_each-grid net.num_dsts net.num_srcs 0 (clean_sender net overlay_port receiver_port) _
          ∙ clean_sender-run (grid net.num_dsts 0 net.num_srcs) _ fs at)

pub commands-append : (es gs : List Effect) → commands (es ++ gs) ≡ commands es ++ commands gs
commands-append [] gs = refl
commands-append (system c ∷ es) gs = ap (λ cs. c ∷ cs) (commands-append es gs)
commands-append (setup_overlay_node h p r d ∷ es) gs = commands-append es gs
commands-append (create_darshana i c ∷ es) gs = commands-append es gs
commands-append (cancel_darshana i ∷ es) gs = commands-append es gs
commands-append (open_dar_socket ip port ∷ es) gs = commands-append es gs
commands-append (open_receiver_socket ip port ∷ es) gs = commands-append es gs
commands-append (catch_sigusr1 ∷ es) gs = commands-append es gs
commands-append (close_dar_socket ∷ es) gs = commands-append es gs
commands-append (close_receiver_socket ∷ es) gs = commands-append es gs
commands-append (close_log_file ∷ es) gs = commands-append es gs

commands-map : (cs : List Bytes) → commands (map system cs) ≡ cs
commands-map [] = refl
commands-map (c ∷ cs) = ap (λ ds. c ∷ ds) (commands-map cs)

map-append : (f : Bytes → Bytes) (xs ys : List Bytes) → map f (xs ++ ys) ≡ map f xs ++ map f ys
map-append f [] ys = refl
map-append f (x ∷ xs) ys = ap (λ zs. f x ∷ zs) (map-append f xs ys)

flow_commands :
    (overlay_port receiver_port : ℕ) (dar_ip : Bytes) (f : Flow)
    → commands (sender_teardown f)
      ≡ map delete_form (commands (flow_setup overlay_port receiver_port dar_ip f))
flow_commands overlay_port receiver_port dar_ip f =
    rw (commands-append, commands-map, commands-map, append-nil)
      ((teardown_matches_setup f.hop f.src f.dst []).1)

pub node_teardown-commands :
    (overlay_port receiver_port : ℕ) (dar_ip : Bytes) (dar_port : ℕ) (fs : List Flow)
    → commands (concat_map (node_teardown overlay_port receiver_port dar_ip dar_port) fs) ≡ []
node_teardown-commands overlay_port receiver_port dar_ip dar_port [] = refl
node_teardown-commands overlay_port receiver_port dar_ip dar_port (f ∷ fs) =
    node_teardown-commands overlay_port receiver_port dar_ip dar_port fs

-- For the same flows, the commands that teardown runs on the sender are those of setup, in the same
-- order, each with -A replaced by -D.
pub teardown_commands :
    (overlay_port receiver_port : ℕ) (dar_ip : Bytes) (fs : List Flow)
    → commands (concat_map sender_teardown fs)
      ≡ map delete_form (commands (concat_map (flow_setup overlay_port receiver_port dar_ip) fs))
teardown_commands overlay_port receiver_port dar_ip [] = refl
teardown_commands overlay_port receiver_port dar_ip (f ∷ fs) =
    commands-append (sender_teardown f) (concat_map sender_teardown fs)
    ∙ ap₂ ◌++◌ (flow_commands overlay_port receiver_port dar_ip f)
        (teardown_commands overlay_port receiver_port dar_ip fs)
    ∙ sym (map-append delete_form (commands (flow_setup overlay_port receiver_port dar_ip f)) _)
    ∙ ap (map delete_form)
        (sym (commands-append (flow_setup overlay_port receiver_port dar_ip f) _))
