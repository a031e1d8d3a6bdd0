-- ===== src/Tests/Manager.antt =====
-- The overlay nodes that the proxy lists, two and none, and the addresses of a receiver.
use premium.Base.{List, [], ◌∷◌, ◌≡◌, none, some, arith, replicate}
use premium.Text.{Bytes, codes}
use premium.Manager.Buffer.{received}
use premium.Manager.Nodes.{
  get_overlay_nodes_from_manager, node_lines, store_all, get_overlay_nodes-node_lines,
  get_overlay_nodes_none, IsLabel,
}
use premium.Sender.State.{max_flows}
use premium.Tests.{relay_a, relay_b, relay_a-IsAddress, relay_b-IsAddress}

abbrev empty_hops : List Bytes
empty_hops = replicate max_flows []

abbrev label : Bytes
label = codes "tuple "

label-IsLabel : IsLabel label
label-IsLabel = record {
  some_bytes = cc;
  no_comma = omega arith;
  no_bracket = omega arith;
  no_nul = omega arith;
  no_o = omega arith;
}

get_overlay_nodes-node_lines_example :
    get_overlay_nodes_from_manager empty_hops
      (received (codes "OK\n") ∷ node_lines label (relay_a ∷ relay_b ∷ []) [])
    ≡ some (2, store_all empty_hops 0 (relay_a ∷ relay_b ∷ []))
get_overlay_nodes-node_lines_example =
    get_overlay_nodes-node_lines empty_hops label relay_a (relay_b ∷ []) [] label-IsLabel
      (relay_a-IsAddress, (relay_b-IsAddress, tt)) (omega arith)

get_overlay_nodes_none_example :
    get_overlay_nodes_from_manager empty_hops (received (codes "OK\n") ∷ received (codes "\n") ∷ [])
    ≡ none
get_overlay_nodes_none_example = get_overlay_nodes_none empty_hops []
