-- ===== src/Ibc/Channel/Lifecycle.antt =====
-- The states of a channel as a step relation over its methods.
use interchain_communication.Prelude.{◌<◌, ◌≡◌, refl, ap, ◌∙◌, none, Bytes, arith, u64_mod}
use interchain_communication.Util.Error.{ErrorCode}
use interchain_communication.Ibc.Types.{IbcPacket}
use interchain_communication.Ibc.Channel.{
  IbcChannel, init, closed, new_channel, open_channel, close_channel, make_packet, accept_packet,
}

-- Any thread calls any method next.
pub data Step (c : IbcChannel) : IbcChannel → Type 0 where
  opens : Step c (open_channel c).0
  closes : Step c (close_channel c).0
  makes :
      (dst_chain dst_port dst_chan payload : Bytes)
      → Step c (make_packet c dst_chain dst_port dst_chan payload).0
  accepts : (p : IbcPacket) → Step c (accept_packet c p).0

pub data Reach (c : IbcChannel) : IbcChannel → Type 0 where
  here : Reach c c
  next : {d e : IbcChannel} → Reach c d → Step d e → Reach c e

-- A counter of 64 bits, and none used up before the channel was opened.
pub record IsChannel (c : IbcChannel) : Type 0 where
  pub fits : c.next_seq < u64_mod
  pub unused : c.state ≡ init → c.next_seq ≡ 1

Step-IsChannel : {c d : IbcChannel} → Step c d → IsChannel c → IsChannel d
unfolding open_channel close_channel make_packet accept_packet
Step-IsChannel opens v = ground arith
Step-IsChannel closes v = ground arith
Step-IsChannel (makes _ _ _ _) v = ground arith
Step-IsChannel (accepts p) v = ground arith

Step-closed : {c d : IbcChannel} → Step c d → c.state ≡ closed → d ≡ c
unfolding open_channel close_channel make_packet accept_packet
Step-closed opens h = ground arith
Step-closed closes h = ground arith
Step-closed (makes _ _ _ _) h = ground arith
Step-closed (accepts p) h = ground arith

Reach-closed : {c d : IbcChannel} → Reach c d → c.state ≡ closed → d ≡ c
Reach-closed here h = refl
Reach-closed (next r s) h =
    let e = Reach-closed r h in Step-closed s (ap (λ (x : IbcChannel). x.state) e ∙ h) ∙ e

-- What every method answers on a closed channel.
abbrev pub RefusesAll : IbcChannel → Type 0
RefusesAll c =
    ((open_channel c).1.code ≡ ErrorCode.channel_closed)
    × ((close_channel c).1.code ≡ ErrorCode.channel_closed)
    × ((dst_chain dst_port dst_chan payload : Bytes)
        → (make_packet c dst_chain dst_port dst_chan payload).1.value ≡ none)
    × ((p : IbcPacket) → (accept_packet c p).1.code ≡ ErrorCode.channel_closed)

closed-RefusesAll : (c : IbcChannel) → c.state ≡ closed → RefusesAll c
unfolding open_channel close_channel make_packet accept_packet
closed-RefusesAll c h = (ground arith, ground arith, λ _ _ _ _. ground arith, λ p. ground arith)

close-closed : (c : IbcChannel) → (close_channel c).0.state ≡ closed
unfolding close_channel
close-closed c = ground arith

-- Whatever is called after a successful or failed `close`, the channel is as `close` left it, and
-- every method refuses: no packet is made, and none is accepted.
pub close_is_final :
    (c : IbcChannel) {d : IbcChannel}
    → Reach (close_channel c).0 d
    → (d ≡ (close_channel c).0) × RefusesAll d
close_is_final c {d} r =
    let e = Reach-closed r (close-closed c) in
    (e, closed-RefusesAll d (ap (λ (x : IbcChannel). x.state) e ∙ close-closed c))

Reach-IsChannel : {c d : IbcChannel} → Reach c d → IsChannel c → IsChannel d
Reach-IsChannel here v = v
Reach-IsChannel (next r s) v = Step-IsChannel s (Reach-IsChannel r v)

new_channel-IsChannel : (chain_id port chan : Bytes) → IsChannel (new_channel chain_id port chan)
unfolding new_channel
new_channel-IsChannel chain_id port chan = ground arith
