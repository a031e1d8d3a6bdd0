-- ===== src/Rules/Teardown.antt =====
-- Teardown of the NAT rules, both on a node and on the sender, and the sizes of the commands.
use premium.Base.{◌<◌, ◌++◌, ◌≡◌, refl, arith, map, length, length-append, drop, All}
use premium.Text.{Bytes, codes}
use premium.Rules.Nat.{
  command_size, forward_paths, remove_rules, set_sender_own_rules_iptables,
  remove_sender_own_rules_iptables,
}

-- The command that deletes the rule which an "iptables -t nat -A ..." command appends.
abbrev pub delete_form : Bytes → Bytes
delete_form command = codes "iptables -t nat -D" ++ drop 18 command

-- The commands that remove a path's rules, on the node and on the sender, are those that set them
-- with -A replaced by -D, in the same order and with the same addresses and port.
pub teardown_matches_setup :
    (overlay src dst port : Bytes)
    → (remove_rules overlay src dst port ≡ map delete_form (forward_paths overlay src dst port))
      × (remove_sender_own_rules_iptables src dst overlay
          ≡ map delete_form (set_sender_own_rules_iptables src dst overlay))
unfolding forward_paths remove_rules set_sender_own_rules_iptables remove_sender_own_rules_iptables
teardown_matches_setup overlay src dst port = (refl, refl)

abbrev pub Fits : Bytes → Type 0
Fits command = length command < command_size

-- Every command fits its buffer of COMMAND_SIZE bytes with its NUL, for fields of up to 100 bytes.
pub commands_fit :
    (overlay src dst port : Bytes)
    → length overlay < 101
    → length src < 101
    → length dst < 101
    → length port < 101
    → All Fits (forward_paths overlay src dst port)
      × All Fits (remove_rules overlay src dst port)
      × All Fits (set_sender_own_rules_iptables src dst overlay)
      × All Fits (remove_sender_own_rules_iptables src dst overlay)
unfolding forward_paths remove_rules set_sender_own_rules_iptables remove_sender_own_rules_iptables
commands_fit overlay src dst port ho hs hd hp = simp length-append (omega arith)
