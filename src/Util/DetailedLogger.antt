-- ===== src/Util/DetailedLogger.antt =====
-- src/util/DetailedLogger.h and DetailedLogger.cpp: the lines of the five kinds of logs. A log file is
-- the list of its lines here, and Streams has the files; `ts` is the clock's reading as `nowIso8601`
-- formats it. The latency of an IBC event, which no caller passes, is the text of a positive number or
-- absent.
pub mod Fields
pub mod Lines
pub mod Whole
pub mod Streams
pub mod Files
pub mod Stored
pub mod Durable
use interchain_communication.Prelude.{
  ℕ, Bool, true, false, List, [], ◌∷◌, ◌++◌, Option, none, some, Bytes, codes, String, Dict, lookup,
  insert, ◌==◌, if◌then◌else◌,
}
use interchain_communication.Util.Json.{escape_json}
use interchain_communication.Util.Decimal.{to_string}
use interchain_communication.Ibc.Types.{IbcPacket}
use interchain_communication.Core.Transaction.{Transaction, tx_type_to_string}
use interchain_communication.Core.Effect.{
  TxEventType, created, submitted, received, included_in_block, dropped, IbcEventType,
  packet_created, packet_relayed, packet_received, ack_generated, ack_relayed, ack_received,
  NodeSnapshot, RelayerSnapshot,
}

pub data LogCategory : Type 0 where
  transactions ibc_events network_drops node_state relayer_state : LogCategory

abbrev pub Lines : Type 0
Lines = List Bytes

pub record DetailedLogger : Type 0 where
  pub transactions_log : Lines
  pub ibc_events_log : Lines
  pub network_drops_log : Lines
  pub node_state_logs : Dict Lines
  pub relayer_state_logs : Dict Lines
  pub transactions_enabled : Bool
  pub ibc_events_enabled : Bool
  pub network_drops_enabled : Bool
  pub node_state_enabled : Bool
  pub relayer_state_enabled : Bool

-- A coordinator as its constructor leaves it: empty logs, all categories enabled.
abbrev pub new_detailed_logger : DetailedLogger
new_detailed_logger = record {
  transactions_log = [];
  ibc_events_log = [];
  network_drops_log = [];
  node_state_logs = [];
  relayer_state_logs = [];
  transactions_enabled = true;
  ibc_events_enabled = true;
  network_drops_enabled = true;
  node_state_enabled = true;
  relayer_state_enabled = true;
}

-- `"name":"text"`, escaped, `"name":number`, and a field that an empty text leaves out.
unfoldable pub text_field : String → Bytes → Bytes
text_field name text = b'"' ∷ (codes name ++ (codes "\":\"" ++ (escape_json text ++ b'"' ∷ [])))

unfoldable pub number_field : String → Bytes → Bytes
number_field name number = b'"' ∷ (codes name ++ (codes "\":" ++ number))

unfoldable pub optional_field : String → Bytes → Bytes
optional_field name [] = []
optional_field name (c ∷ text) = b',' ∷ text_field name (c ∷ text)

-- The fields of a line with commas between them, and the braces around it.
unfoldable pub fields : List Bytes → Bytes
fields [] = []
fields (x ∷ []) = x
fields (x ∷ y ∷ xs) = x ++ (b',' ∷ fields (y ∷ xs))

unfoldable pub braces : Bytes → Bytes
braces inside = b'{' ∷ (inside ++ b'}' ∷ [])

unfoldable pub tx_event_name : TxEventType → String
tx_event_name created = "created"
tx_event_name submitted = "submitted"
tx_event_name received = "received"
tx_event_name included_in_block = "included_in_block"
tx_event_name dropped = "dropped"

unfoldable pub ibc_event_name : IbcEventType → String
ibc_event_name packet_created = "packet_created"
ibc_event_name packet_relayed = "packet_relayed"
ibc_event_name packet_received = "packet_received"
ibc_event_name ack_generated = "ack_generated"
ibc_event_name ack_relayed = "ack_relayed"
ibc_event_name ack_received = "ack_received"

unfoldable pub transaction_line : Bytes → TxEventType → Transaction → Bytes → Bytes → ℕ → Bytes
transaction_line ts event tx chain_id node_id block_height = braces (
    fields (
      text_field "ts" ts
      ∷ text_field "event" (codes (tx_event_name event))
      ∷ text_field "tx_id" tx.tx_id
      ∷ text_field "tx_type" (codes (tx_type_to_string tx.type))
      ∷ text_field "from" tx.from
      ∷ text_field "to" tx.to
      ∷ text_field "payload" tx.payload
      ∷ [])
    ++ (optional_field "chain_id" chain_id
        ++ (optional_field "node_id" node_id
            ++ (if block_height == 0
                then []
                else b',' ∷ number_field "block_height" (to_string block_height)))))

unfoldable pub log_transaction_event :
    DetailedLogger → Bytes → TxEventType → Transaction → Bytes → Bytes → ℕ → DetailedLogger
log_transaction_event l ts event tx chain_id node_id block_height =
    if l.transactions_enabled
    then record l {
      transactions_log =
          l.transactions_log ++ transaction_line ts event tx chain_id node_id block_height ∷ [];
    }
    else l

abbrev latency_field : Option Bytes → Bytes
latency_field none = []
latency_field (some number) = b',' ∷ number_field "latency_ms" number

unfoldable pub ibc_event_line : Bytes → IbcEventType → IbcPacket → Bytes → Option Bytes → Bytes
ibc_event_line ts event p relayer_id latency = braces (
    fields (
      text_field "ts" ts
      ∷ text_field "event" (codes (ibc_event_name event))
      ∷ text_field "src_chain" p.src_chain
      ∷ text_field "dst_chain" p.dst_chain
      ∷ text_field "src_port" p.src_port
      ∷ text_field "src_channel" p.src_channel
      ∷ text_field "dst_port" p.dst_port
      ∷ text_field "dst_channel" p.dst_channel
      ∷ number_field "sequence" (to_string p.sequence)
      ∷ text_field "payload" p.payload
      ∷ [])
    ++ (optional_field "relayer_id" relayer_id ++ latency_field latency))

unfoldable pub log_ibc_event :
    DetailedLogger → Bytes → IbcEventType → IbcPacket → Bytes → Option Bytes → DetailedLogger
log_ibc_event l ts event p relayer_id latency =
    if l.ibc_events_enabled
    then record l {
      ibc_events_log = l.ibc_events_log ++ ibc_event_line ts event p relayer_id latency ∷ [];
    }
    else l

unfoldable pub network_drop_line : Bytes → Bytes → Bytes → Bytes → ℕ → Bytes → Bytes
network_drop_line ts from to message_type message_size drop_reason = braces (
    fields (
      text_field "ts" ts
      ∷ text_field "from" from
      ∷ text_field "to" to
      ∷ text_field "message_type" message_type
      ∷ number_field "message_size" (to_string message_size)
      ∷ text_field "drop_reason" drop_reason
      ∷ []))

unfoldable pub log_network_drop :
    DetailedLogger → Bytes → Bytes → Bytes → Bytes → ℕ → Bytes → DetailedLogger
log_network_drop l ts from to message_type message_size drop_reason =
    if l.network_drops_enabled
    then record l {
      network_drops_log =
          l.network_drops_log
          ++ network_drop_line ts from to message_type message_size drop_reason ∷ [];
    }
    else l

-- The log of a key, made if it is new, with one more line.
abbrev pub lines_of : Option Lines → Lines
lines_of none = []
lines_of (some lines) = lines

unfoldable pub write : Bytes → Bytes → Dict Lines → Dict Lines
write key line logs = insert key (lines_of (lookup key logs) ++ line ∷ []) logs

unfoldable pub node_state_key : Bytes → Bytes → Bytes
node_state_key chain_id node_id = chain_id ++ (b'_' ∷ node_id)

unfoldable pub node_state_line : Bytes → NodeSnapshot → Bytes → Bytes
node_state_line ts n additional = braces (
    fields (
      text_field "ts" ts
      ∷ text_field "chain_id" n.chain_id
      ∷ text_field "node_id" n.node_id
      ∷ number_field "block_height" (to_string n.block_height)
      ∷ text_field "block_hash" n.block_hash
      ∷ number_field "mempool_size" (to_string n.mempool_size)
      ∷ text_field "consensus_state" (codes n.consensus_state)
      ∷ [])
    ++ optional_field "additional" additional)

unfoldable pub log_node_state : DetailedLogger → Bytes → NodeSnapshot → Bytes → DetailedLogger
log_node_state l ts n additional =
    if l.node_state_enabled
    then record l {
      node_state_logs =
          write (node_state_key n.chain_id n.node_id) (node_state_line ts n additional)
            l.node_state_logs;
    }
    else l

unfoldable pub relayer_state_line : Bytes → RelayerSnapshot → Bytes
relayer_state_line ts r = braces (
    fields (
      text_field "ts" ts
      ∷ text_field "relayer_id" r.relayer_id
      ∷ text_field "event_type" (codes r.event_type)
      ∷ number_field "packets_relayed" (to_string r.packets_relayed)
      ∷ number_field "acks_relayed" (to_string r.acks_relayed)
      ∷ number_field "failures" (to_string r.failures)
      ∷ [])
    ++ optional_field "additional" r.additional_data)

unfoldable pub log_relayer_state : DetailedLogger → Bytes → RelayerSnapshot → DetailedLogger
log_relayer_state l ts r =
    if l.relayer_state_enabled
    then record l {
      relayer_state_logs = write r.relayer_id (relayer_state_line ts r) l.relayer_state_logs;
    }
    else l

unfoldable pub enable_category : DetailedLogger → LogCategory → Bool → DetailedLogger
enable_category l transactions enabled = record l { transactions_enabled = enabled }
enable_category l ibc_events enabled = record l { ibc_events_enabled = enabled }
enable_category l network_drops enabled = record l { network_drops_enabled = enabled }
enable_category l node_state enabled = record l { node_state_enabled = enabled }
enable_category l relayer_state enabled = record l { relayer_state_enabled = enabled }
