-- ===== src/Dar.antt =====
-- DAR, the Darshana Alert Receiver: SCMultipath/dar/. Time models utils.c, Chain the linked lists
-- that hijack_alert_handler.c and monitored_paths_handler.c keep on the C heap, Alerts and Paths
-- those two files, History what is printed of the alerts, Receiver alerts_receiver.c, and Replay the
-- program testing_wout_socket/parse_hijack.c; the children hold the proofs.
pub mod Time
pub mod Chain
pub mod Alerts
pub mod Paths
pub mod Receiver
pub mod History
pub mod Replay
