-- ===== src/Net.antt =====
-- Network utilities: the ICMP ping of SCMultipath/utils/connectivity_utils.c and the probing of the
-- overlay nodes that rests on it.
pub mod Checksum
pub mod Ping
pub mod Probe
