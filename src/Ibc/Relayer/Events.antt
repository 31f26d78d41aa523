-- ===== src/Ibc/Relayer/Events.antt =====
-- What the relayer hears on the bus, and what it sends on.
use interchain_communication.Prelude.{
  ℕ, ◌≤◌, ◌≡◌, true, false, [], ◌∷◌, ◌++◌, some, Bytes, lookup, arith,
}
use interchain_communication.Util.Error.{status, ErrorCode}
use interchain_communication.Util.Queue.{push}
use interchain_communication.Ibc.Types.{IbcPacket, IsPacket, data_packet, ack, serialize}
use interchain_communication.Ibc.Types.RoundTrip.{deserialize-serialize}
use interchain_communication.Core.EventBus.{Event}
use interchain_communication.Core.Effect.{inc_counter}
use interchain_communication.Net.Transport
use interchain_communication.Net.Transport.{
  Transport, has_endpoint, send, schedule, uniform, rate_one,
}
use interchain_communication.Ibc.Relayer.{
  Relayer, Draws, should_drop, wire, relay_to, relay_packet, queue_packet, queue_ack,
  packet_arrives, ack_arrives, packet_read, ack_read, on_ibc_packet_send_event,
  on_ibc_ack_send_event,
}

-- The relayer with one more packet, or acknowledgement, in its queue.
abbrev pub with_packet : Relayer → IbcPacket → Relayer
with_packet r p = record r {
  pending_packets = record r.pending_packets { items = r.pending_packets.items ++ p ∷ [] };
}

abbrev pub with_ack : Relayer → IbcPacket → Relayer
with_ack r p = record r {
  pending_acks = record r.pending_acks { items = r.pending_acks.items ++ p ∷ [] };
}

-- A relayer whose packet queue is open queues exactly the packet of a published event whose type is
-- Data, and its handler of acknowledgements passes that packet over.
pub hears_packet :
    (r : Relayer) (e : Event) (p : IbcPacket)
    → r.pending_packets.is_closed ≡ false
    → e.detail ≡ serialize p
    → IsPacket p
    → p.type ≡ data_packet
    → (on_ibc_packet_send_event r e ≡ (with_packet r p, inc_counter "relayer_packets_queued" ∷ []))
      × (on_ibc_ack_send_event r e ≡ (r, []))
unfolding on_ibc_packet_send_event on_ibc_ack_send_event packet_read ack_read packet_arrives
    ack_arrives queue_packet queue_ack push
hears_packet r e p open_queue detail v is_type = (
  rw (detail, deserialize-serialize p v, is_type, open_queue),
  rw (detail, deserialize-serialize p v, is_type),
)

-- A relayer whose queue of acknowledgements is open queues exactly the packet of a published event
-- whose type is Ack, and its handler of packets passes it over.
hears_ack :
    (r : Relayer) (e : Event) (p : IbcPacket)
    → r.pending_acks.is_closed ≡ false
    → e.detail ≡ serialize p
    → IsPacket p
    → p.type ≡ ack
    → (on_ibc_ack_send_event r e ≡ (with_ack r p, inc_counter "relayer_acks_queued" ∷ []))
      × (on_ibc_packet_send_event r e ≡ (r, []))
unfolding on_ibc_packet_send_event on_ibc_ack_send_event packet_read ack_read packet_arrives
    ack_arrives queue_packet queue_ack push
hears_ack r e p open_queue detail v is_type = (
  rw (detail, deserialize-serialize p v, is_type, open_queue),
  rw (detail, deserialize-serialize p v, is_type),
)

-- The transport drops nothing at a rate of 1 or less, whatever it draws.
should_drop-le_one : (u rate : ℕ) → rate ≤ rate_one → Transport.should_drop u rate ≡ false
unfolding Transport.should_drop
should_drop-le_one u rate h = ground arith

-- To a known chain, on a route that does not drop, a packet is scheduled for the chain's mailbox.
pub relay_packet_lem :
    {H : Type 0} (r : Relayer) (t : Transport H) (p : IbcPacket) (address : Bytes) (u : Draws)
    (now : ℕ)
    → lookup p.dst_chain r.chain_addr ≡ some address
    → should_drop u.route r.route_drop ≡ false
    → has_endpoint t address ≡ true
    → t.params.drop_rate ≤ rate_one
    → relay_packet r t p u now ≡ (schedule t address (wire r p) now, status ErrorCode.ok "", [])
unfolding relay_packet relay_to send
relay_packet_lem r t p address u now known kept there rate =
    rw (known, relay_to, kept, there, should_drop-le_one u.network t.params.drop_rate rate)
