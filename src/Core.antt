-- ===== src/Core.antt =====
-- src/core: transactions and blocks, the mempool, the event bus, one chain, and a node.
pub mod Transaction
pub mod Block
pub mod Mempool
pub mod EventBus
pub mod Effect
pub mod Blockchain
pub mod NodeMessage
pub mod Node
