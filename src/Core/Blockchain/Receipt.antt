-- ===== src/Core/Blockchain/Receipt.antt =====
-- What `Blockchain::onIBCPacket` of src/core/Blockchain.cpp publishes.
use interchain_communication.Prelude.{
  ◌≡◌, refl, sym, ap, subst, ◌∙◌, Bool, true, false, List, [], ◌∷◌, ◌++◌, Bytes, codes, Bool-cases,
  inl, inr, ==_iff, if◌then◌else◌, arith, u64_mod, ◌<◌,
}
use interchain_communication.Util.Error.{is_ok, returns}
use interchain_communication.Util.Decimal.{to_string}
use interchain_communication.Ibc.Types.{
  IbcPacket, ack, IsPacket, serialize, deserialize, of_int, to_int,
}
use interchain_communication.Ibc.Types.RoundTrip.{deserialize-serialize}
use interchain_communication.Core.EventBus.{Event, ibc_packet_recv, ibc_ack_send}
use interchain_communication.Core.Effect.{Effect, publishes}
use interchain_communication.Core.Blockchain.{
  Blockchain, make_channel_key, on_ibc_packet, receive_effects, ack_of,
}
use interchain_communication.Core.Blockchain.Channels.{IsSound, channel_at-IsUsable, Updated}
use interchain_communication.Core.Blockchain.Receiving.{is_next, behind, on_ibc_packet_lem}

-- The events among the effects, in their order.
abbrev pub events : List Effect → List Event
events [] = []
events (publishes e ∷ es) = e ∷ events es
events (_ ∷ es) = events es

-- The acknowledgement that a packet asks for: back where it came from, under its sequence number.
abbrev pub answer : IbcPacket → IbcPacket
answer p = record {
  type = ack;
  src_chain = p.dst_chain;
  dst_chain = p.src_chain;
  src_port = p.dst_port;
  src_channel = p.dst_channel;
  dst_port = p.src_port;
  dst_channel = p.src_channel;
  sequence = p.sequence;
  payload = codes "ack_" ++ to_string p.sequence;
}

-- One event tells of the arrival and one carries the acknowledgement, as text that reads back as it;
-- both name the chain.
abbrev pub IsReceipt : Blockchain → IbcPacket → List Event → Type 0
IsReceipt bc p es =
    (text : Bytes) × (deserialize text ≡ returns (answer p))
    × (es
        ≡ record {
          kind = ibc_packet_recv;
          chain_id = bc.chain_id;
          node_id = [];
          detail = codes "IBC packet received";
        }
          ∷ record { kind = ibc_ack_send; chain_id = bc.chain_id; node_id = []; detail = text }
          ∷ [])

answer-IsPacket : (p : IbcPacket) → p.sequence < u64_mod → IsPacket (answer p)
unfolding of_int to_int
answer-IsPacket p h = record { type_canonical = refl; type_fits = omega arith; sequence_fits = h }

events-receive_effects :
    (bc : Blockchain) (p : IbcPacket)
    → p.sequence < u64_mod
    → IsReceipt bc p (events (receive_effects bc p))
unfolding receive_effects ack_of
events-receive_effects bc p h = (
  serialize (answer p),
  deserialize-serialize (answer p) (answer-IsPacket p h),
  elim (Bool-cases bc.has_logger) [ inl e ↦ rw e | inr e ↦ rw e ],
)

-- What is published of a packet that is received, and of one that is not.
abbrev pub Answers : Blockchain → IbcPacket → List Effect → Bool → Type 0
Answers bc p es true = IsReceipt bc p (events es)
Answers bc p es false = es ≡ []

received-Answers :
    (bc bc' : Blockchain) (p : IbcPacket) (b : Bool)
    → bc'.chain_id ≡ bc.chain_id
    → (b ≡ true → p.sequence < u64_mod)
    → Answers bc p (if b then receive_effects bc' p else []) b
received-Answers bc bc' p true same fits =
    let (text, reads, published) = events-receive_effects bc' p (fits refl) in
    (
      text,
      reads,
      published
          ∙ ap
              (λ id.
                record {
                  kind = ibc_packet_recv;
                  chain_id = id;
                  node_id = [];
                  detail = codes "IBC packet received";
                }
                ∷ record { kind = ibc_ack_send; chain_id = id; node_id = []; detail = text }
                ∷ [])
              same,
    )
received-Answers bc bc' p false same fits = refl

-- On a chain none of whose channels is closed, a packet is received exactly when its sequence number
-- is the next of its channel. Then the counter moves on, and two events of this chain are published:
-- the packet's arrival, and its acknowledgement, a text that reads back as an acknowledgement under
-- the packet's sequence number from where the packet went to where it came from. Otherwise the channel
-- is only opened and nothing is published or recorded. No other channel changes.
pub on_ibc_packet-Answers :
    (bc : Blockchain) (p : IbcPacket)
    → IsSound bc
    → let (bc', s, es) = on_ibc_packet bc p in
      (is_ok s ≡ is_next bc p)
      × Answers bc p es (is_next bc p)
      × Updated bc (make_channel_key p.dst_port p.dst_channel) (behind bc p (is_next bc p)) bc'
on_ibc_packet-Answers bc p v =
    let (succeeds, published, updated) = on_ibc_packet_lem bc p v in
    let bc' = (on_ibc_packet bc p).0 in
    (
      succeeds,
      subst (λ es. Answers bc p es (is_next bc p)) (sym published)
          (received-Answers bc bc' p (is_next bc p)
            (ap (λ (x : Blockchain). x.chain_id) updated.kept)
            (λ e.
              subst (λ n. n < u64_mod) (sym ((==_iff _ _).0 e))
                (channel_at-IsUsable bc p.dst_port p.dst_channel v).1)),
      updated,
    )
