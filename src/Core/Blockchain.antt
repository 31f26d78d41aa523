-- ===== src/Core/Blockchain.antt =====
-- src/core/Blockchain.h and Blockchain.cpp. Each method holds the chain mutex throughout, so it is
-- one step. `channels_` owns the channels that `getOrCreateChannel` points into: a method that
-- changes a channel writes it back under its key.
pub mod Channels
pub mod Sending
pub mod Receiving
pub mod Receipt
pub mod Reach
pub mod Replay
pub mod Ledger
use interchain_communication.Prelude.{
  ℕ, ◌+◌, Bool, true, false, ◌||◌, ◌&&◌, not, List, [], ◌∷◌, ◌++◌, Option, none, some, Bytes, codes,
  bytes_eq, Dict, lookup, insert, get_last?, ◌==◌, if◌then◌else◌, incr64,
}
use interchain_communication.Util.Error.{Status, status, Result, ErrorCode, is_ok, is_invalid_state}
use interchain_communication.Util.Decimal.{to_string}
use interchain_communication.Ibc.Types.{IbcPacket, ack, serialize}
use interchain_communication.Ibc.Channel.{
  IbcChannel, new_channel, open_channel, make_packet, accept_packet,
}
use interchain_communication.Ibc.Router.{IbcRouter, bind, unbind}
use interchain_communication.Core.Block.{Block}
use interchain_communication.Core.Mempool.{Mempool}
use interchain_communication.Core.EventBus.{
  EventKind, block_finalized, ibc_packet_send, ibc_packet_recv, ibc_ack_send, ibc_ack_recv,
}
use interchain_communication.Core.Effect.{
  Effect, publishes, inc_counter, logs_ibc_event, packet_created, packet_received, ack_generated,
  ack_received, detailed,
}

pub record Blockchain : Type 0 where
  pub chain_id : Bytes
  pub chain : List Block
  pub mempool : Mempool
  pub router : IbcRouter
  pub has_logger : Bool
  pub node_ids : List Bytes
  pub channels : Dict IbcChannel

abbrev pub genesis : Bytes → Block
genesis chain_id = record {
  header = record {
    chain_id = chain_id;
    height = 0;
    prev_hash = [];
    timestamp = 0;
    state_root = [];
  };
  txs = [];
  extra = [];
}

unfoldable pub new_blockchain : Bytes → Bool → Blockchain
new_blockchain chain_id has_logger = record {
  chain_id = chain_id;
  chain = genesis chain_id ∷ [];
  mempool = [];
  router = [];
  has_logger = has_logger;
  node_ids = [];
  channels = [];
}

unfoldable pub make_channel_key : Bytes → Bytes → Bytes
make_channel_key port chan = port ++ (b':' ∷ chan)

abbrev pub store : Blockchain → Bytes → Bytes → IbcChannel → Blockchain
store bc port chan c = record bc { channels = insert (make_channel_key port chan) c bc.channels }

unfoldable pub get_or_create_channel : Blockchain → Bytes → Bytes → Blockchain × IbcChannel
get_or_create_channel bc port chan = elim (lookup (make_channel_key port chan) bc.channels) [
  | some c ↦ (bc, c)
  | none ↦ let c = new_channel bc.chain_id port chan in (store bc port chan c, c)
]

-- `!openStatus.ok() && openStatus.code != ErrorCode::InvalidState`.
abbrev pub open_failed : Status → Bool
open_failed s = not (is_ok s) && not (is_invalid_state s)

-- The channel of the key, opened if it was new, in the chain that holds it so.
unfoldable pub open_stored : Blockchain → Bytes → Bytes → Blockchain × IbcChannel × Status
open_stored bc port chan =
    let (bc', c) = get_or_create_channel bc port chan in
    let (c', s) = open_channel c in (store bc' port chan c', c', s)

unfoldable pub open_ibc_channel : Blockchain → Bytes → Bytes → Blockchain × Status
open_ibc_channel bc port chan =
    let (r, bound) = bind bc.router port chan in
    let (bc', c, opened) = open_stored (record bc { router = r }) port chan in
    if not (is_ok bound)
    then (bc, bound)
    else if open_failed opened
    then (bc', opened)
    else (bc', status ErrorCode.ok "")

unfoldable pub close_ibc_channel : Blockchain → Bytes → Bytes → Blockchain × Status
close_ibc_channel bc port chan =
    let (r, s) = unbind bc.router port chan in (record bc { router = r }, s)

abbrev pub chain_event : Blockchain → EventKind → Bytes → Effect
chain_event bc kind detail =
    publishes (record { kind = kind; chain_id = bc.chain_id; node_id = []; detail = detail })

unfoldable pub send_effects : Blockchain → IbcPacket → List Effect
send_effects bc p =
    chain_event bc ibc_packet_send (serialize p)
    ∷ inc_counter "ibc_packets_sent"
    ∷ detailed bc.has_logger (logs_ibc_event packet_created p [])

-- `pktRes.value.value()` cannot throw: a packet that was made without error is there.
unfoldable pub announce :
    Blockchain → Result IbcPacket → Option IbcPacket → Blockchain × Result IbcPacket × List Effect
announce bc r none = (bc, r, [])
announce bc r (some p) = (bc, r, send_effects bc p)

unfoldable pub send_ibc :
    Blockchain
    → Bytes
    → Bytes
    → Bytes
    → Bytes
    → Bytes
    → Bytes
    → Blockchain × Result IbcPacket × List Effect
send_ibc bc port chan dst_chain dst_port dst_chan payload =
    let (bc', c, opened) = open_stored bc port chan in
    let (c', r) = make_packet c dst_chain dst_port dst_chan payload in
    let bc'' = store bc' port chan c' in
    if open_failed opened
    then (bc', record { status = opened; value = none }, [])
    else if not (is_ok r.status)
    then (bc'', r, [])
    else announce bc'' r r.value

-- The acknowledgement of a packet.
unfoldable pub ack_of : IbcPacket → IbcPacket
ack_of p = record {
  type = ack;
  src_chain = p.dst_chain;
  dst_chain = p.src_chain;
  src_port = p.dst_port;
  src_channel = p.dst_channel;
  dst_port = p.src_port;
  dst_channel = p.src_channel;
  sequence = p.sequence;
  payload = codes "ack_" ++ to_string p.sequence;
}

unfoldable pub receive_effects : Blockchain → IbcPacket → List Effect
receive_effects bc p =
    chain_event bc ibc_packet_recv (codes "IBC packet received")
    ∷ inc_counter "ibc_packets_received"
    ∷ (detailed bc.has_logger (logs_ibc_event packet_received p [])
        ++ (chain_event bc ibc_ack_send (serialize (ack_of p))
            ∷ detailed bc.has_logger (logs_ibc_event ack_generated (ack_of p) [])))

unfoldable pub on_ibc_packet : Blockchain → IbcPacket → Blockchain × Status × List Effect
on_ibc_packet bc p =
    let (bc', c, opened) = open_stored bc p.dst_port p.dst_channel in
    let (c', s) = accept_packet c p in
    let bc'' = store bc' p.dst_port p.dst_channel c' in
    if open_failed opened
    then (bc', opened, [])
    else (bc'', s, if is_ok s then receive_effects bc'' p else [])

unfoldable pub on_ibc_ack : Blockchain → IbcPacket → Status × List Effect
on_ibc_ack bc a = (
  status ErrorCode.ok "Ack processed",
  chain_event bc ibc_ack_recv (codes "IBC ack received")
      ∷ inc_counter "ibc_acks_received"
      ∷ detailed bc.has_logger (logs_ibc_event ack_received a []),
)

-- `chain_.back()`.
unfoldable pub head : Blockchain → Option Block
head bc = get_last? bc.chain

unfoldable pub append_effects : Blockchain → Block → List Effect
append_effects bc b =
    chain_event bc block_finalized (codes "Block appended at height " ++ to_string b.header.height)
    ∷ inc_counter "blocks_appended"
    ∷ []

-- `!chain_.empty() && blk.header.height != chain_.back().header.height + 1`.
unfoldable pub height_mismatch : Option Block → Block → Bool
height_mismatch none b = false
height_mismatch (some last) b = not (b.header.height == incr64 last.header.height)

unfoldable pub append_block : Blockchain → Block → Blockchain × Status × List Effect
append_block bc b =
    if height_mismatch (head bc) b
    then (bc, status ErrorCode.invalid_state "Block height mismatch", [])
    else (
      record bc { chain = bc.chain ++ b ∷ [] },
      status ErrorCode.ok "Block appended",
      append_effects bc b,
    )

unfoldable pub has_id : Bytes → List Bytes → Bool
has_id id [] = false
has_id id (x ∷ xs) = if bytes_eq x id then true else has_id id xs

unfoldable pub register_node_id : Blockchain → Bytes → Blockchain
register_node_id bc id =
    if has_id id bc.node_ids then bc else record bc { node_ids = bc.node_ids ++ id ∷ [] }
