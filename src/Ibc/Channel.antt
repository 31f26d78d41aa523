-- ===== src/Ibc/Channel.antt =====
-- src/ibc/IBCChannel.h and IBCChannel.cpp: a channel with its state and its one sequence counter,
-- which packets sent and packets accepted share. Each method holds the channel's mutex throughout,
-- so it is one step; the class `IBCChannel` only forwards to `IBCChannelImpl`.
pub mod Lifecycle
pub mod Order
use interchain_communication.Prelude.{
  ℕ, Bool, true, false, none, some, Bytes, ◌==◌, if◌then◌else◌, incr64,
}
use interchain_communication.Util.Error.{Status, status, Result, ErrorCode}
use interchain_communication.Ibc.Types.{IbcPacket, data_packet}

pub data ChannelState : Type 0 where
  init opened closed : ChannelState

pub record IbcChannel : Type 0 where
  pub chain_id : Bytes
  pub port : Bytes
  pub chan : Bytes
  pub state : ChannelState
  pub next_seq : ℕ

unfoldable pub new_channel : Bytes → Bytes → Bytes → IbcChannel
new_channel chain_id port chan = record {
  chain_id = chain_id;
  port = port;
  chan = chan;
  state = init;
  next_seq = 1;
}

unfoldable pub open_channel : IbcChannel → IbcChannel × Status
open_channel c = elim c.state [
  | closed ↦ (c, status ErrorCode.channel_closed "Channel is closed")
  | opened ↦ (c, status ErrorCode.invalid_state "Channel already open")
  | init ↦ (record c { state = opened }, status ErrorCode.ok "Channel opened")
]

unfoldable pub close_channel : IbcChannel → IbcChannel × Status
close_channel c = elim c.state [
  | closed ↦ (c, status ErrorCode.channel_closed "Channel already closed")
  | _ ↦ (record c { state = closed }, status ErrorCode.ok "Channel closed")
]

-- `state_ == ChannelState::Open`.
abbrev pub is_open : ChannelState → Bool
is_open opened = true
is_open _ = false

unfoldable pub make_packet :
    IbcChannel → Bytes → Bytes → Bytes → Bytes → IbcChannel × Result IbcPacket
make_packet c dst_chain dst_port dst_chan payload =
    if is_open c.state
    then (
      record c { next_seq = incr64 c.next_seq },
      record {
        status = status ErrorCode.ok "";
        value = some (record {
          type = data_packet;
          src_chain = c.chain_id;
          dst_chain = dst_chain;
          src_port = c.port;
          src_channel = c.chan;
          dst_port = dst_port;
          dst_channel = dst_chan;
          sequence = c.next_seq;
          payload = payload;
        });
      },
    )
    else (c, record { status = status ErrorCode.invalid_state "Channel not open"; value = none })

unfoldable pub accept_packet : IbcChannel → IbcPacket → IbcChannel × Status
accept_packet c p =
    if is_open c.state
    then (if p.sequence == c.next_seq
        then (record c { next_seq = incr64 c.next_seq }, status ErrorCode.ok "Packet accepted")
        else (c, status ErrorCode.invalid_state "Packet sequence mismatch"))
    else (c, status ErrorCode.channel_closed "Channel not open")
