-- ===== src/Core/Blockchain/Receiving.antt =====
-- `Blockchain::onIBCPacket` on a chain none of whose channels is closed.
use interchain_communication.Prelude.{
  ℕ, ◌<◌, ◌≡◌, refl, sym, ap, subst, ◌∙◌, Bool, true, false, [], Bytes, bytes_eq_refl, ◌==◌,
  if◌then◌else◌, u64_mod, incr64, arith,
}
use interchain_communication.Util.Error.{is_ok}
use interchain_communication.Ibc.Types.{IbcPacket}
use interchain_communication.Ibc.Channel.{IbcChannel, opened, accept_packet}
use interchain_communication.Core.Blockchain.{
  Blockchain, make_channel_key, on_ibc_packet, receive_effects,
}
use interchain_communication.Core.Blockchain.Channels.{
  IsUsable, IsSound, channel_at, channel_at-IsUsable, channel_at-own, opened_at, bumped_at, Updated,
  Updated-IsSound, restore-Updated, opens_at,
}

-- Whether the packet is the next of its channel.
abbrev pub is_next : Blockchain → IbcPacket → Bool
is_next bc p = p.sequence == (channel_at bc p.dst_port p.dst_channel).next_seq

-- The channel behind a packet, received or refused.
abbrev pub behind : Blockchain → IbcPacket → Bool → IbcChannel
behind bc p received =
    if received
    then bumped_at bc p.dst_port p.dst_channel
    else opened_at bc p.dst_port p.dst_channel

accept_opened :
    (c : IbcChannel) (p : IbcPacket)
    → c.state ≡ opened
    → ((accept_packet c p).0
        ≡ (if p.sequence == c.next_seq then record c { next_seq = incr64 c.next_seq } else c))
      × (is_ok (accept_packet c p).1 ≡ (p.sequence == c.next_seq))
unfolding accept_packet
accept_opened c p h = ground arith

-- On a chain none of whose channels is closed, a packet is received exactly when its sequence
-- number is the next of its channel. Then the counter moves on and the packet's arrival and its
-- acknowledgement are published; otherwise the channel is only opened and nothing is published.
-- No other channel changes.
pub on_ibc_packet_lem :
    (bc : Blockchain) (p : IbcPacket)
    → IsSound bc
    → let (bc', s, es) = on_ibc_packet bc p in
      (is_ok s ≡ is_next bc p)
      × (es ≡ (if is_next bc p then receive_effects bc' p else []))
      × Updated bc (make_channel_key p.dst_port p.dst_channel) (behind bc p (is_next bc p)) bc'
unfolding on_ibc_packet
on_ibc_packet_lem bc p v =
    let (updated, channel, fine) = opens_at bc p.dst_port p.dst_channel v in
    let (counts, succeeds) = accept_opened (opened_at bc p.dst_port p.dst_channel) p refl in
    rw (fine, channel, counts, succeeds)
      (refl, refl, restore-Updated p.dst_port p.dst_channel _ updated)

pub on_ibc_packet-IsSound :
    (bc : Blockchain) (p : IbcPacket) → IsSound bc → IsSound (on_ibc_packet bc p).0
on_ibc_packet-IsSound bc p v =
    Updated-IsSound _ v (usable (is_next bc p)) (owned (is_next bc p)) (on_ibc_packet_lem bc p v).2
  where
    usable : (b : Bool) → IsUsable (behind bc p b)
    usable true = (λ q. cc, omega arith)
    usable false = (λ q. cc, (channel_at-IsUsable bc p.dst_port p.dst_channel v).1)

    owned : (b : Bool) → (behind bc p b).chain_id ≡ bc.chain_id
    owned true = channel_at-own bc p.dst_port p.dst_channel v
    owned false = channel_at-own bc p.dst_port p.dst_channel v

-- The channel that a packet arrives on, behind its arrival.
pub channel_behind :
    (bc bc' : Blockchain) (port chan : Bytes) (c : IbcChannel)
    → Updated bc (make_channel_key port chan) c bc'
    → channel_at bc' port chan ≡ c
channel_behind bc bc' port chan c u =
    rw (u.at (make_channel_key port chan), bytes_eq_refl (make_channel_key port chan))

stale_number : (n m k : ℕ) → (n == m) ≡ true → k ≡ incr64 m → m < u64_mod → (n == k) ≡ false
stale_number n m k e f h = ground arith

-- A packet that a chain has received is refused when it arrives again, and then nothing is published.
on_ibc_packet_twice :
    (bc : Blockchain) (p : IbcPacket)
    → IsSound bc
    → is_ok (on_ibc_packet bc p).1 ≡ true
    → let (bc', s, es) = on_ibc_packet (on_ibc_packet bc p).0 p in (is_ok s ≡ false) × (es ≡ [])
on_ibc_packet_twice bc p v h =
    let (succeeds, _, updated) = on_ibc_packet_lem bc p v in
    let next : is_next bc p ≡ true = sym succeeds ∙ h in
    let moved : channel_at (on_ibc_packet bc p).0 p.dst_port p.dst_channel
        ≡ bumped_at bc p.dst_port p.dst_channel =
      channel_behind bc _ p.dst_port p.dst_channel _ (
        subst
          (λ b.
            Updated bc (make_channel_key p.dst_port p.dst_channel) (behind bc p b)
              (on_ibc_packet bc p).0)
          next updated) in
    let stale : is_next (on_ibc_packet bc p).0 p ≡ false =
      stale_number p.sequence _ _ next (ap (λ (c : IbcChannel). c.next_seq) moved)
        (channel_at-IsUsable bc p.dst_port p.dst_channel v).1 in
    let (refused, silent, _) =
      on_ibc_packet_lem (on_ibc_packet bc p).0 p (on_ibc_packet-IsSound bc p v) in
    (
      refused ∙ stale,
      silent
          ∙ ap (λ b. if b then receive_effects (on_ibc_packet (on_ibc_packet bc p).0 p).0 p else [])
              stale,
    )
