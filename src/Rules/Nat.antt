-- ===== src/Rules/Nat.antt =====
-- The NAT commands of an overlay node (SCNodeCode/on_rules_utils.c) and of the sender
-- (SCMultipath/utils/rules_utils.c): the texts that are handed to system, in order.
use premium.Base.{ℕ, List, [], ◌∷◌}
use premium.Text.{Bytes, codes, strcat_all}

abbrev pub command_size : ℕ
command_size = 500

unfoldable pub forward_paths : Bytes → Bytes → Bytes → Bytes → List Bytes
forward_paths overlay_addr source_addr dest_addr dest_port =
    strcat_all (
      codes "iptables -t nat -A PREROUTING -p tcp --dport "
      ∷ dest_port
      ∷ codes " -s "
      ∷ source_addr
      ∷ codes " -d "
      ∷ overlay_addr
      ∷ codes " -j DNAT --to-destination "
      ∷ dest_addr
      ∷ [])
    ∷ strcat_all (
        codes "iptables -t nat -A POSTROUTING -p tcp -s "
        ∷ source_addr
        ∷ codes " -d "
        ∷ dest_addr
        ∷ codes " -j SNAT --to-source "
        ∷ overlay_addr
        ∷ [])
    ∷ strcat_all (
        codes "iptables -t nat -A PREROUTING -p tcp --dport "
        ∷ dest_port
        ∷ codes " -s "
        ∷ dest_addr
        ∷ codes " -d "
        ∷ overlay_addr
        ∷ codes " -j DNAT --to-destination "
        ∷ source_addr
        ∷ [])
    ∷ strcat_all (
        codes "iptables -t nat -A POSTROUTING -p tcp -s "
        ∷ dest_addr
        ∷ codes " -d "
        ∷ source_addr
        ∷ codes " -j SNAT --to-source "
        ∷ overlay_addr
        ∷ [])
    ∷ []

unfoldable pub remove_rules : Bytes → Bytes → Bytes → Bytes → List Bytes
remove_rules overlay_addr source_addr dest_addr dest_port =
    strcat_all (
      codes "iptables -t nat -D PREROUTING -p tcp --dport "
      ∷ dest_port
      ∷ codes " -s "
      ∷ source_addr
      ∷ codes " -d "
      ∷ overlay_addr
      ∷ codes " -j DNAT --to-destination "
      ∷ dest_addr
      ∷ [])
    ∷ strcat_all (
        codes "iptables -t nat -D POSTROUTING -p tcp -s "
        ∷ source_addr
        ∷ codes " -d "
        ∷ dest_addr
        ∷ codes " -j SNAT --to-source "
        ∷ overlay_addr
        ∷ [])
    ∷ strcat_all (
        codes "iptables -t nat -D PREROUTING -p tcp --dport "
        ∷ dest_port
        ∷ codes " -s "
        ∷ dest_addr
        ∷ codes " -d "
        ∷ overlay_addr
        ∷ codes " -j DNAT --to-destination "
        ∷ source_addr
        ∷ [])
    ∷ strcat_all (
        codes "iptables -t nat -D POSTROUTING -p tcp -s "
        ∷ dest_addr
        ∷ codes " -d "
        ∷ source_addr
        ∷ codes " -j SNAT --to-source "
        ∷ overlay_addr
        ∷ [])
    ∷ []

unfoldable pub set_sender_own_rules_iptables : Bytes → Bytes → Bytes → List Bytes
set_sender_own_rules_iptables sender_ip receiver_ip overlay_node_ip =
    strcat_all (
      codes "iptables -t nat -A PREROUTING -p tcp -s "
      ∷ sender_ip
      ∷ codes " -d "
      ∷ receiver_ip
      ∷ codes " -j DNAT --to-destination "
      ∷ overlay_node_ip
      ∷ [])
    ∷ strcat_all (
        codes "iptables -t nat -A OUTPUT -p tcp -s "
        ∷ sender_ip
        ∷ codes " -d "
        ∷ receiver_ip
        ∷ codes " -j DNAT --to-destination "
        ∷ overlay_node_ip
        ∷ [])
    ∷ []

unfoldable pub remove_sender_own_rules_iptables : Bytes → Bytes → Bytes → List Bytes
remove_sender_own_rules_iptables sender_ip receiver_ip overlay_node_ip =
    strcat_all (
      codes "iptables -t nat -D PREROUTING -p tcp -s "
      ∷ sender_ip
      ∷ codes " -d "
      ∷ receiver_ip
      ∷ codes " -j DNAT --to-destination "
      ∷ overlay_node_ip
      ∷ [])
    ∷ strcat_all (
        codes "iptables -t nat -D OUTPUT -p tcp -s "
        ∷ sender_ip
        ∷ codes " -d "
        ∷ receiver_ip
        ∷ codes " -j DNAT --to-destination "
        ∷ overlay_node_ip
        ∷ [])
    ∷ []

abbrev pub flush_nat_iptables : Bytes
flush_nat_iptables = codes "iptables -t nat -F"
