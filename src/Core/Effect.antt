-- ===== src/Core/Effect.antt =====
-- What the methods of chains, nodes and relayers do to the objects around them, in order: events
-- published on the bus, counters of src/util/Metrics.h, and the records that they hand to
-- src/util/DetailedLogger.h, which is a pointer that may be null. The lines of src/util/Logger.h,
-- which only go to the terminal, are left out.
use interchain_communication.Prelude.{ℕ, Bool, List, [], ◌∷◌, Bytes, String, if◌then◌else◌}
use interchain_communication.Ibc.Types.{IbcPacket}
use interchain_communication.Core.Transaction.{Transaction}
use interchain_communication.Core.EventBus.{Event}

pub data TxEventType : Type 0 where
  created submitted received included_in_block dropped : TxEventType

pub data IbcEventType : Type 0 where
  packet_created packet_relayed packet_received ack_generated ack_relayed ack_received :
      IbcEventType

-- The arguments of `logNodeState`.
pub record NodeSnapshot : Type 0 where
  pub chain_id : Bytes
  pub node_id : Bytes
  pub block_height : ℕ
  pub block_hash : Bytes
  pub mempool_size : ℕ
  pub consensus_state : String

-- The arguments of `logRelayerState`.
pub record RelayerSnapshot : Type 0 where
  pub relayer_id : Bytes
  pub event_type : String
  pub packets_relayed : ℕ
  pub acks_relayed : ℕ
  pub failures : ℕ
  pub additional_data : Bytes

pub data Effect : Type 0 where
  publishes : Event → Effect
  inc_counter : String → Effect
  logs_ibc_event : IbcEventType → IbcPacket → Bytes → Effect
  logs_transaction : TxEventType → Transaction → Bytes → Bytes → Effect
  logs_network_drop : Bytes → Bytes → ℕ → Effect
  logs_node_state : NodeSnapshot → Effect
  logs_relayer_state : RelayerSnapshot → Effect

-- `if (detailedLogger_) detailedLogger_->…`.
abbrev pub detailed : Bool → Effect → List Effect
detailed has_logger e = if has_logger then e ∷ [] else []
