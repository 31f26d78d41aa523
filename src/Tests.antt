-- ===== src/Tests.antt =====
-- The theorems at concrete inputs, and runs of the definitions.
mod Packets
mod Chains
mod Nodes
mod Wires
mod Blocks
mod Logs
mod Disks
mod Sims
