-- ===== src/Core/Blockchain/Sending.antt =====
-- `Blockchain::sendIBC` on a chain none of whose channels is closed.
use interchain_communication.Prelude.{◌≡◌, refl, true, some, Bytes, arith}
use interchain_communication.Util.Error.{is_ok, status, ErrorCode, returns}
use interchain_communication.Ibc.Types.{
  IbcPacket, IsPacket, data_packet, of_int, to_int, serialize, deserialize,
}
use interchain_communication.Ibc.Types.RoundTrip.{deserialize-serialize}
use interchain_communication.Ibc.Channel.{make_packet}
use interchain_communication.Core.Blockchain.{
  Blockchain, make_channel_key, send_ibc, announce, send_effects,
}
use interchain_communication.Core.Blockchain.Channels.{
  IsSound, channel_at, channel_at-IsUsable, channel_at-own, opened_at, bumped_at, Updated,
  Updated-IsSound, restore-Updated, opens_at,
}

-- The packet that `send_ibc` makes.
abbrev pub packet_of : Blockchain → Bytes → Bytes → Bytes → Bytes → Bytes → Bytes → IbcPacket
packet_of bc port chan dst_chain dst_port dst_chan payload =
    let c = channel_at bc port chan in
    record {
      type = data_packet;
      src_chain = c.chain_id;
      dst_chain = dst_chain;
      src_port = c.port;
      src_channel = c.chan;
      dst_port = dst_port;
      dst_channel = dst_chan;
      sequence = c.next_seq;
      payload = payload;
    }

pub packet_of-IsPacket :
    (bc : Blockchain) (port chan dst_chain dst_port dst_chan payload : Bytes)
    → IsSound bc
    → IsPacket (packet_of bc port chan dst_chain dst_port dst_chan payload)
unfolding of_int to_int
packet_of-IsPacket bc port chan dst_chain dst_port dst_chan payload v = record {
  type_canonical = refl;
  type_fits = omega arith;
  sequence_fits = (channel_at-IsUsable bc port chan v).1;
}

make_opened :
    (bc : Blockchain) (port chan dst_chain dst_port dst_chan payload : Bytes)
    → make_packet (opened_at bc port chan) dst_chain dst_port dst_chan payload ≡ (
      bumped_at bc port chan,
      record {
        status = status ErrorCode.ok "";
        value = some (packet_of bc port chan dst_chain dst_port dst_chan payload);
      },
    )
unfolding make_packet
make_opened bc port chan dst_chain dst_port dst_chan payload = refl

-- On a chain none of whose channels is closed, `sendIBC` succeeds: it returns the packet with the
-- counter of its channel, moves that counter on and changes no other channel, and its records are
-- those of that packet.
pub send_ibc_lem :
    (bc : Blockchain) (port chan dst_chain dst_port dst_chan payload : Bytes)
    → IsSound bc
    → let p = packet_of bc port chan dst_chain dst_port dst_chan payload in
      let (bc', r, es) = send_ibc bc port chan dst_chain dst_port dst_chan payload in
      (r.value ≡ some p)
      × (is_ok r.status ≡ true)
      × (es ≡ send_effects bc' p)
      × Updated bc (make_channel_key port chan) (bumped_at bc port chan) bc'
unfolding send_ibc announce
send_ibc_lem bc port chan dst_chain dst_port dst_chan payload v =
    let (updated, channel, fine) = opens_at bc port chan v in
    rw (fine, channel, make_opened)
      (refl, refl, refl, restore-Updated port chan (bumped_at bc port chan) updated)

-- The event that `sendIBC` publishes reads back as the packet that it returned, which
-- names this chain as its source.
send_ibc-published :
    (bc : Blockchain) (port chan dst_chain dst_port dst_chan payload : Bytes)
    → IsSound bc
    → let (bc', r, es) = send_ibc bc port chan dst_chain dst_port dst_chan payload in
      (p : IbcPacket) × (r.value ≡ some p)
      × (es ≡ send_effects bc' p)
      × (deserialize (serialize p) ≡ returns p)
      × (p.src_chain ≡ bc.chain_id)
send_ibc-published bc port chan dst_chain dst_port dst_chan payload v =
    let (made, fine, effects, updated) =
      send_ibc_lem bc port chan dst_chain dst_port dst_chan payload v in
    (
      packet_of bc port chan dst_chain dst_port dst_chan payload,
      made,
      effects,
      deserialize-serialize _
          (packet_of-IsPacket bc port chan dst_chain dst_port dst_chan payload v),
      channel_at-own bc port chan v,
    )

-- Sending keeps every channel usable.
pub send_ibc-IsSound :
    (bc : Blockchain) (port chan dst_chain dst_port dst_chan payload : Bytes)
    → IsSound bc
    → IsSound (send_ibc bc port chan dst_chain dst_port dst_chan payload).0
send_ibc-IsSound bc port chan dst_chain dst_port dst_chan payload v =
    Updated-IsSound _ v (λ q. cc, omega arith) (channel_at-own bc port chan v)
      (send_ibc_lem bc port chan dst_chain dst_port dst_chan payload v).3
