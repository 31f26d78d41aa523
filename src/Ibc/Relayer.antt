-- ===== src/Ibc/Relayer.antt =====
-- src/ibc/Relayer.h and Relayer.cpp: the relayer's queues, its handlers of bus events, and the loop
-- of its thread. The transport is passed in and returned; draws of the random number generators and
-- the clock's reading are arguments.
pub mod Counts
pub mod Events
use interchain_communication.Prelude.{
  ℕ, zero, Bool, true, false, not, List, [], ◌∷◌, ◌++◌, Option, none, some, Bytes, codes, String,
  Dict, lookup, insert, ltb, if◌then◌else◌, incr64,
}
use interchain_communication.Util.Error.{
  Exception, Outcome, returns, throws, Status, status, ErrorCode, is_ok,
}
use interchain_communication.Util.Queue.{ConcurrentQueue, empty_queue, push, try_pop, close}
use interchain_communication.Util.Decimal.{to_string}
use interchain_communication.Ibc.Types.{
  IbcPacket, IbcPacketType, data_packet, ack, serialize, deserialize,
}
use interchain_communication.Core.NodeMessage.{ibc, serialize_node_message}
use interchain_communication.Core.EventBus.{
  Event, EventBus, ibc_packet_send, ibc_ack_send, subscribe, unsubscribe,
}
use interchain_communication.Core.Effect.{
  Effect, inc_counter, logs_ibc_event, packet_relayed, ack_relayed, logs_relayer_state, detailed,
}
use interchain_communication.Net.Transport.{Transport, send, uniform, rate_one}

pub record Relayer : Type 0 where
  pub name : Bytes
  pub has_logger : Bool
  pub chain_addr : Dict Bytes
  pub route_drop : ℕ
  pub running : Bool
  pub pending_packets : ConcurrentQueue IbcPacket
  pub pending_acks : ConcurrentQueue IbcPacket
  pub packets_relayed : ℕ
  pub acks_relayed : ℕ
  pub failures : ℕ

unfoldable pub new_relayer : Bytes → Bool → Relayer
new_relayer name has_logger = record {
  name = name;
  has_logger = has_logger;
  chain_addr = [];
  route_drop = 0;
  running = false;
  pending_packets = empty_queue;
  pending_acks = empty_queue;
  packets_relayed = 0;
  acks_relayed = 0;
  failures = 0;
}

unfoldable pub start : Relayer → Relayer × Status
start r =
    if r.running
    then (r, status ErrorCode.invalid_state "Relayer already running")
    else (record r { running = true }, status ErrorCode.ok "")

unfoldable pub stop : Relayer → Relayer
stop r =
    if r.running
    then record r {
      running = false;
      pending_packets = close r.pending_packets;
      pending_acks = close r.pending_acks;
    }
    else r

-- The constructor and the destructor with their subscriptions. The bus is generic in its handlers:
-- `on_packet` and `on_ack` stand for the relayer's two.
pub record Subscribed (H : Type 0) : Type 0 where
  pub relayer : Relayer
  pub bus : EventBus H
  pub packet_send_token : ℕ
  pub ack_send_token : ℕ

module _ {H : Type 0} where
  unfoldable pub subscribe_relayer : Bytes → Bool → EventBus H → H → H → Subscribed H
  subscribe_relayer name has_logger bus on_packet on_ack =
      let (bus', packet_send_token) = subscribe bus ibc_packet_send on_packet in
      let (bus'', ack_send_token) = subscribe bus' ibc_ack_send on_ack in
      record {
        relayer = new_relayer name has_logger;
        bus = bus'';
        packet_send_token = packet_send_token;
        ack_send_token = ack_send_token;
      }

  unfoldable pub delete_relayer : Subscribed H → Subscribed H
  delete_relayer s = record s {
    relayer = stop s.relayer;
    bus = unsubscribe (unsubscribe s.bus s.packet_send_token) s.ack_send_token;
  }

-- The helper of Relayer.cpp, whose distribution runs from 0.0 to 1.0.
unfoldable pub should_drop : ℕ → ℕ → Bool
should_drop u drop_rate = ltb (uniform 0 rate_one u) drop_rate

unfoldable pub connect_chain_mailbox : Relayer → Bytes → Bytes → Relayer
connect_chain_mailbox r chain_id address = record r {
  chain_addr = insert chain_id address r.chain_addr;
}

unfoldable pub set_drop_on_route : Relayer → ℕ → Relayer
set_drop_on_route r probability = record r { route_drop = probability }

-- The draws that one packet may take: the relayer's for its route, the transport's for the network.
pub record Draws : Type 0 where
  pub route : ℕ
  pub network : ℕ

-- The text that is sent for a packet: a node message of kind IBC.
unfoldable pub wire : Relayer → IbcPacket → Bytes
wire r p =
    serialize_node_message (record { from_address = r.name; kind = ibc; bytes = serialize p })

module _ {H : Type 0} where
  -- What `relayPacket` and `relayAck` do once the address is known; `dropped` is their own message.
  unfoldable pub relay_to :
      Relayer
      → Transport H
      → IbcPacket
      → String
      → Option Bytes
      → Draws
      → ℕ
      → Transport H × Status × List Effect
  relay_to r t p dropped none u now =
      (t, status ErrorCode.not_found "Destination chain not connected", [])
  relay_to r t p dropped (some address) u now =
      if should_drop u.route r.route_drop
      then (t, status ErrorCode.network_drop dropped, [])
      else send t r.name address (wire r p) u.network now

  unfoldable pub relay_packet :
      Relayer → Transport H → IbcPacket → Draws → ℕ → Transport H × Status × List Effect
  relay_packet r t p u now =
      relay_to r t p "Packet dropped on relayer route" (lookup p.dst_chain r.chain_addr) u now

  unfoldable pub relay_ack :
      Relayer → Transport H → IbcPacket → Draws → ℕ → Transport H × Status × List Effect
  relay_ack r t p u now =
      relay_to r t p "Ack dropped on relayer route" (lookup p.dst_chain r.chain_addr) u now

unfoldable pub log_relayer_state : Relayer → String → Bytes → List Effect
log_relayer_state r event_type additional = detailed r.has_logger (
    logs_relayer_state (record {
      relayer_id = r.name;
      event_type = event_type;
      packets_relayed = r.packets_relayed;
      acks_relayed = r.acks_relayed;
      failures = r.failures;
      additional_data = additional;
    }))

abbrev seq_text : IbcPacket → Bytes
seq_text p = codes "seq=" ++ to_string p.sequence

-- The counters and records behind a call of `relayPacket`.
unfoldable pub after_packet : Relayer → IbcPacket → Status → Relayer × List Effect
unfolding log_relayer_state
after_packet r p s =
    let relayed : Relayer = record r { packets_relayed = incr64 r.packets_relayed } in
    let failed : Relayer = record r { failures = incr64 r.failures } in
    if is_ok s
    then (
      relayed,
      inc_counter "relayer_packets_relayed"
          ∷ (detailed r.has_logger (logs_ibc_event packet_relayed p r.name)
              ++ log_relayer_state relayed "packet_relayed" (seq_text p)),
    )
    else (
      failed,
      inc_counter "relayer_packets_failed"
          ∷ log_relayer_state failed "packet_failed" (codes s.message),
    )

-- The counters and records behind a call of `relayAck`.
unfoldable pub after_ack : Relayer → IbcPacket → Status → Relayer × List Effect
unfolding log_relayer_state
after_ack r p s =
    let relayed : Relayer = record r { acks_relayed = incr64 r.acks_relayed } in
    let failed : Relayer = record r { failures = incr64 r.failures } in
    if is_ok s
    then (
      relayed,
      inc_counter "relayer_acks_relayed"
          ∷ (detailed r.has_logger (logs_ibc_event ack_relayed p r.name)
              ++ log_relayer_state relayed "ack_relayed" (seq_text p)),
    )
    else (
      failed,
      inc_counter "relayer_acks_failed" ∷ log_relayer_state failed "ack_failed" (codes s.message),
    )

module _ {H : Type 0} where
  unfoldable pub process_packet :
      Relayer → Transport H → Option IbcPacket → Draws → ℕ → Relayer × Transport H × List Effect
  process_packet r t none u now = (r, t, [])
  process_packet r t (some p) u now =
      let (t', s, sent) = relay_packet r t p u now in
      let (r', logged) = after_packet r p s in (r', t', sent ++ logged)

  unfoldable pub process_ack :
      Relayer → Transport H → Option IbcPacket → Draws → ℕ → Relayer × Transport H × List Effect
  process_ack r t none u now = (r, t, [])
  process_ack r t (some p) u now =
      let (t', s, sent) = relay_ack r t p u now in
      let (r', logged) = after_ack r p s in (r', t', sent ++ logged)

  -- One round of `runLoop`, which has seen that the relayer runs: a packet, then an acknowledgement,
  -- if there is one. A round that finds neither sleeps.
  unfoldable pub run_round :
      Relayer → Transport H → Draws → Draws → ℕ → Relayer × Transport H × List Effect
  run_round r t u v now =
      let (packets, p) = try_pop r.pending_packets in
      let (r', t', es) = process_packet (record r { pending_packets = packets }) t p u now in
      let (acks, a) = try_pop r'.pending_acks in
      let (r'', t'', fs) = process_ack (record r' { pending_acks = acks }) t' a v now in
      (r'', t'', es ++ fs)

-- What the handlers do with the queue that `push` returns; its exception is caught.
unfoldable pub queue_packet : Relayer → Outcome (ConcurrentQueue IbcPacket) → Relayer × List Effect
queue_packet r (returns q) =
    (record r { pending_packets = q }, inc_counter "relayer_packets_queued" ∷ [])
queue_packet r (throws e) = (r, inc_counter "relayer_deserialization_errors" ∷ [])

unfoldable pub queue_ack : Relayer → Outcome (ConcurrentQueue IbcPacket) → Relayer × List Effect
queue_ack r (returns q) = (record r { pending_acks = q }, inc_counter "relayer_acks_queued" ∷ [])
queue_ack r (throws e) = (r, inc_counter "relayer_deserialization_errors" ∷ [])

-- Only packets of type Data are queued by the first handler, only those of type Ack by the second.
unfoldable pub packet_arrives : Relayer → IbcPacket → IbcPacketType → Relayer × List Effect
packet_arrives r p data_packet = queue_packet r (push r.pending_packets p)
packet_arrives r p _ = (r, [])

unfoldable pub ack_arrives : Relayer → IbcPacket → IbcPacketType → Relayer × List Effect
ack_arrives r p ack = queue_ack r (push r.pending_acks p)
ack_arrives r p _ = (r, [])

unfoldable pub packet_read : Relayer → Outcome IbcPacket → Relayer × List Effect
packet_read r (returns p) = packet_arrives r p p.type
packet_read r (throws e) = (r, inc_counter "relayer_deserialization_errors" ∷ [])

unfoldable pub ack_read : Relayer → Outcome IbcPacket → Relayer × List Effect
ack_read r (returns p) = ack_arrives r p p.type
ack_read r (throws e) = (r, inc_counter "relayer_deserialization_errors" ∷ [])

unfoldable pub on_ibc_packet_send_event : Relayer → Event → Relayer × List Effect
on_ibc_packet_send_event r e = packet_read r (deserialize e.detail)

unfoldable pub on_ibc_ack_send_event : Relayer → Event → Relayer × List Effect
on_ibc_ack_send_event r e = ack_read r (deserialize e.detail)
