-- ===== src/Sender.antt =====
-- The sender, SCMultipath/sending_handler.c and the files it calls. State holds what the functions
-- share, Flows sets up and tears down one path for each pair of addresses.
pub mod State
pub mod Interfaces
pub mod Flows
pub mod Session
pub mod Start
