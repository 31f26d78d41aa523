-- ===== src/Net.antt =====
-- src/net: the simulated transport and the overlay of nodes.
pub mod Topology
pub mod Transport
