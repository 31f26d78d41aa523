-- ===== src/Core/Block.antt =====
-- src/core/Block.h and Types.h. Hashes are strings.
use interchain_communication.Prelude.{ℕ, List, Bytes}
use interchain_communication.Core.Transaction.{Transaction}

pub record BlockHeader : Type 0 where
  pub chain_id : Bytes
  pub height : ℕ
  pub prev_hash : Bytes
  pub timestamp : ℕ
  pub state_root : Bytes

pub record Block : Type 0 where
  pub header : BlockHeader
  pub txs : List Transaction
  pub extra : Bytes
