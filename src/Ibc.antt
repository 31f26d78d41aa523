-- ===== src/Ibc.antt =====
-- src/ibc: packets and their texts, channels, the port router and the relayer.
pub mod Types
pub mod Channel
pub mod Router
pub mod Relayer
