-- ===== src/Consensus.antt =====
-- src/consensus: the three engines, and the choice of one.
pub mod Context
pub mod Votes
pub mod Pbft
pub mod Pos
pub mod Pow
pub mod Factory
