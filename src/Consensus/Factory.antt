-- ===== src/Consensus/Factory.antt =====
-- src/consensus/ConsensusFactory.cpp and src/config/ChainConfig.h.
use interchain_communication.Prelude.{ℕ, Bytes, String}
use interchain_communication.Util.Error.{Outcome, returns, throws, unknown_consensus}
use interchain_communication.Consensus.Pbft.{Pbft, new_pbft}
use interchain_communication.Consensus.Pos.{Pos, new_pos}
use interchain_communication.Consensus.Pow.{Pow, new_pow}

-- `other` is a value of the enumeration with no name.
pub data ConsensusKind : Type 0 where
  pow pos pbft : ConsensusKind
  other : ℕ → ConsensusKind

pub record ChainConfig : Type 0 where
  pub chain_id : Bytes
  pub consensus_kind : ConsensusKind
  pub node_count : ℕ
  pub block_time : ℕ
  pub pow_difficulty : ℕ
  pub validator_set_size : ℕ
  pub pbft_fault_tolerance : ℕ

-- The subclasses of `Consensus`.
pub data Engine : Type 0 where
  is_pow : Pow → Engine
  is_pos : Pos → Engine
  is_pbft : Pbft → Engine

unfoldable pub make_kind : ConsensusKind → ChainConfig → Outcome Engine
make_kind pow cfg = returns (is_pow (new_pow cfg.pow_difficulty))
make_kind pos cfg = returns (is_pos (new_pos cfg.validator_set_size))
make_kind pbft cfg = returns (is_pbft (new_pbft cfg.pbft_fault_tolerance))
make_kind (other n) cfg = throws unknown_consensus

unfoldable pub make : ChainConfig → Outcome Engine
unfolding make_kind
make cfg = make_kind cfg.consensus_kind cfg

unfoldable pub engine_name : Engine → String
engine_name (is_pow e) = "PoW"
engine_name (is_pos e) = "PoS"
engine_name (is_pbft e) = "PBFT"
