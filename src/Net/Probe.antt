-- ===== src/Net/Probe.antt =====
-- probe_overlay_nodes of SCMultipath/utils/connectivity_utils.c and validate_number_of_hops of
-- SCMultipath/overlay_manager.c. `ping t node` is whether the ping with number t answers 1. `none`
-- is a read past the end of the array, or a loop that has not ended within its fuel.
use premium.Base.{
  ap, ltb-false, lt→ltb, get_elem?-some, ℕ, zero, suc, ◌+◌, ◌≤◌, ◌<◌, List, ◌∷◌, ◌≡◌, Bool, true,
  false, Option, none, some, arith, get_elem?, set, length, ltb, ◌==◌, if◌then◌else◌, ◌>>=◌,
  Option-cases, inl, inr,
}
use premium.Text.{Bytes}

unfoldable pub probe_loop :
    (ℕ → Bytes → Bool) → ℕ → ℕ → ℕ → ℕ → List Bytes → Option (ℕ × List Bytes)
probe_loop ping zero num_hops i t nodes = none
probe_loop ping (suc fuel) num_hops i t nodes =
    if ltb i num_hops
    then (do
      node ← get_elem? nodes i
      let kept = probe_loop ping fuel num_hops (i + 1) (t + 1) nodes
      let skipped = (do
        next ← get_elem? nodes (i + 1)
        probe_loop ping fuel num_hops i (t + 1) (set nodes i next))
      if ping t node then kept else skipped)
    else some (i, nodes)

-- The hops are allocated by reserve_memory_for_structures, so nodes[0] is never NULL.
unfoldable pub probe_overlay_nodes :
    (ℕ → Bytes → Bool) → ℕ → ℕ → List Bytes → Option (ℕ × List Bytes)
unfolding probe_loop
probe_overlay_nodes ping fuel num_hops nodes = probe_loop ping fuel num_hops 0 0 nodes

pub data Verdict : Type 0 where
  not_enough exactly_enough enough : Verdict

-- `not_enough` ends the process.
unfoldable pub validate_number_of_hops : ℕ → ℕ → Verdict
validate_number_of_hops num_responsive_hops min_number_of_nodes =
    if ltb num_responsive_hops min_number_of_nodes
    then not_enough
    else if num_responsive_hops == min_number_of_nodes
    then exactly_enough
    else enough

probe_loop-count :
    (ping : ℕ → Bytes → Bool) (fuel num_hops i t : ℕ) (nodes found : List Bytes) (n : ℕ)
    → i ≤ num_hops
    → probe_loop ping fuel num_hops i t nodes ≡ some (n, found)
    → n ≡ num_hops
unfolding probe_loop
probe_loop-count ping zero num_hops i t nodes found n h e = cc
probe_loop-count ping (suc fuel) num_hops i t nodes found n h e =
    elim (Option-cases (get_elem? nodes (i + 1))) [
      | inl last ↦
          ground (arith, last, probe_loop-count ping fuel num_hops (i + 1) (t + 1) nodes found n)
      | inr (next, more) ↦ ground (
        arith,
        more,
        probe_loop-count ping fuel num_hops (i + 1) (t + 1) nodes found n,
        probe_loop-count ping fuel num_hops i (t + 1) (set nodes i next) found n,
      )
    ]

-- Whatever the pings answer, if probe_overlay_nodes returns, the number of responsive nodes that
-- it returns is the number of nodes that it was given: a node that does not answer never lowers
-- it. So the check of the number of nodes that follows comes to what it would without the probe.
pub probe_overlay_nodes-count :
    (ping : ℕ → Bytes → Bool) (fuel num_hops min_number : ℕ) (nodes found : List Bytes) (n : ℕ)
    → probe_overlay_nodes ping fuel num_hops nodes ≡ some (n, found)
    → (n ≡ num_hops)
      × (validate_number_of_hops n min_number ≡ validate_number_of_hops num_hops min_number)
unfolding probe_overlay_nodes
probe_overlay_nodes-count ping fuel num_hops min_number nodes found n e =
    let same = probe_loop-count ping fuel num_hops 0 0 nodes found n (omega arith) e in
    (same, ap (λ m. validate_number_of_hops m min_number) same)

-- From round i on every node answers.
probe_loop_all :
    (ping : ℕ → Bytes → Bool) (rounds fuel num_hops i t : ℕ) (nodes : List Bytes)
    → ((s : ℕ) (node : Bytes) → t ≤ s → ping s node ≡ true)
    → i + rounds ≡ num_hops
    → num_hops ≤ length nodes
    → rounds < fuel
    → probe_loop ping fuel num_hops i t nodes ≡ some (num_hops, nodes)
unfolding probe_loop
probe_loop_all ping rounds zero num_hops i t nodes up e le lt = absurd (omega arith)
probe_loop_all ping zero (suc fuel) num_hops i t nodes up e le lt =
    rw (ltb-false i num_hops (omega arith)) (ap (λ k. some (k, nodes)) (omega arith))
probe_loop_all ping (suc rounds) (suc fuel) num_hops i t nodes up e le lt =
    let (node, at) = get_elem?-some nodes i (omega arith) in
    rw (lt→ltb i num_hops (omega arith), at, up t node (omega arith))
      (probe_loop_all ping rounds fuel num_hops (i + 1) (t + 1) nodes
        (λ s n ge. up s n (omega arith)) (omega arith) le (omega arith))

-- If every ping is answered and the array holds num_hops nodes, num_hops + 1 rounds of fuel are
-- enough, all nodes are kept as they stand, and the number returned is theirs.
pub probe_overlay_nodes_all :
    (ping : ℕ → Bytes → Bool) (num_hops : ℕ) (nodes : List Bytes)
    → ((t : ℕ) (node : Bytes) → ping t node ≡ true)
    → num_hops ≤ length nodes
    → probe_overlay_nodes ping (num_hops + 1) num_hops nodes ≡ some (num_hops, nodes)
unfolding probe_overlay_nodes
probe_overlay_nodes_all ping num_hops nodes up le =
    probe_loop_all ping num_hops (num_hops + 1) num_hops 0 0 nodes (λ s n ge. up s n) (omega arith)
      le (omega arith)

-- If the first ping fails and all later ones are answered, for an array of two or more strings of
-- which one or more are nodes, num_hops + 2 rounds of fuel are enough, the second string stands
-- twice in the array, and the number returned is that of all nodes, the silent one included.
pub probe_overlay_nodes_repeats :
    (ping : ℕ → Bytes → Bool) (num_hops : ℕ) (a b : Bytes) (rest : List Bytes)
    → ping 0 a ≡ false
    → ((t : ℕ) (node : Bytes) → 1 ≤ t → ping t node ≡ true)
    → 0 < num_hops
    → num_hops ≤ length (a ∷ b ∷ rest)
    → probe_overlay_nodes ping (num_hops + 2) num_hops (a ∷ b ∷ rest)
      ≡ some (num_hops, b ∷ b ∷ rest)
unfolding probe_overlay_nodes
probe_overlay_nodes_repeats ping num_hops a b rest down up pos le =
    let fuel : num_hops + 2 ≡ suc (num_hops + 1) = omega arith in
    rw (fuel, lt→ltb 0 num_hops pos, down)
      (probe_loop_all ping num_hops (num_hops + 1) num_hops 0 1 (b ∷ b ∷ rest) up (omega arith) le
        (omega arith))
