-- ===== src/Rules.antt =====
-- The control messages between the sender and an overlay node, and the iptables commands that both
-- run. The children model overlay_manager.c, path_monitoring.c, forwarding_handler.c,
-- on_rules_utils.c and rules_utils.c; their children hold the proofs.
pub mod Spec
pub mod Nat
pub mod Teardown
pub mod Table
pub mod Short
pub mod Node
pub mod Exchange
pub mod Protocol
pub mod Start
