-- ===== src/Tests/Net.antt =====
-- Pings and probes of two overlay nodes, and one packet.
use premium.Base.{
  ℕ, zero, suc, ◌%◌, ◌/◌, [], ◌∷◌, ◌≡◌, refl, ◌≤◌, Bool, true, false, negsuc, some, arith,
}
use premium.Text.{Bytes}
use premium.Net.Checksum.{checksum, checksum_verifies}
use premium.Net.Ping.{Found, ping_overlay_node, ping_overlay_node-Found}
use premium.Net.Probe.{
  probe_overlay_nodes, probe_overlay_nodes-count, probe_overlay_nodes_repeats,
  validate_number_of_hops,
}
use premium.Tests.{relay_a, relay_b}

checksum_verifies_example :
    let sum = checksum (8 ∷ 0 ∷ 0 ∷ 0 ∷ 57 ∷ 48 ∷ 1 ∷ 0 ∷ []) in
    checksum (8 ∷ 0 ∷ sum % 256 ∷ sum / 256 ∷ 57 ∷ 48 ∷ 1 ∷ 0 ∷ []) ≡ 0
checksum_verifies_example =
    checksum_verifies 8 0 (57 ∷ 48 ∷ 1 ∷ 0 ∷ []) (omega arith) (omega arith) (omega arith)
      (omega arith)

-- The first of the ten rounds finds nothing, the others a packet.
abbrev late : ℕ → Bool
late zero = false
late (suc j) = true

ping_overlay_node-Found_example :
    Found late 0 10 (ping_overlay_node true late) × (ping_overlay_node false late ≡ (negsuc 0, 0))
ping_overlay_node-Found_example = ping_overlay_node-Found late

-- The first ping fails.
abbrev first_lost : ℕ → Bytes → Bool
first_lost zero node = false
first_lost (suc t) node = true

later_answered : (t : ℕ) (node : Bytes) → 1 ≤ t → first_lost t node ≡ true
later_answered zero node h = absurd (omega arith)
later_answered (suc t) node h = refl

probe_overlay_nodes_repeats_example :
    probe_overlay_nodes first_lost 4 2 (relay_a ∷ relay_b ∷ []) ≡ some (2, relay_b ∷ relay_b ∷ [])
probe_overlay_nodes_repeats_example =
    probe_overlay_nodes_repeats first_lost 2 relay_a relay_b [] refl later_answered (omega arith)
      (omega arith)

abbrev node_count : ℕ
node_count = 2

probe_overlay_nodes_count_example :
    (node_count ≡ node_count)
    × (validate_number_of_hops node_count 2 ≡ validate_number_of_hops node_count 2)
probe_overlay_nodes_count_example =
    probe_overlay_nodes-count first_lost 4 node_count 2 (relay_a ∷ relay_b ∷ [])
      (relay_b ∷ relay_b ∷ []) node_count probe_overlay_nodes_repeats_example
