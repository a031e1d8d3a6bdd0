-- ===== src/Standalone.antt =====
-- Darshana/dar: the receiver of alerts as a program of its own, an older copy of SCMultipath/dar.
-- hijack_alert_handler.c, utils.c and the linked lists are the same in both, so that Dar/Alerts,
-- Dar/Time and Dar/Chain stand for them here; Paths and Show model monitored_paths_handler.c, and
-- Receiver with Loop alerts_receiver.c.
pub mod Paths
pub mod Show
pub mod Receiver
