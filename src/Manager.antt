-- ===== src/Manager.antt =====
-- The Multipath Manager's clients, register_dep.c of SCMultipath and of SCNodeCode: the commands that
-- they send to the manager's proxy and how they read its answers. The proxy itself is Java code and
-- enters as the list of what recv returns.
pub mod Buffer
pub mod Register
pub mod Nodes
pub mod Receiver
