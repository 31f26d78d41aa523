-- ===== src/Core/Node/Sound.antt =====
-- A round of a node's loop (src/core/Node.cpp) and the channels of the chain that the node refers to.
use interchain_communication.Prelude.{refl, List, Option, none, some, if_keeps}
use interchain_communication.Util.Error.{Outcome, returns, throws}
use interchain_communication.Util.Queue.{ConcurrentQueue, is_ready}
use interchain_communication.Ibc.Types.{IbcPacket, IbcPacketType, data_packet, ack}
use interchain_communication.Core.Transaction.{Transaction}
use interchain_communication.Core.NodeMessage.{
  NodeMessage, NodeMessageKind, block, transaction, ibc,
}
use interchain_communication.Core.Effect.{Effect}
use interchain_communication.Core.Blockchain.{Blockchain}
use interchain_communication.Core.Blockchain.Channels.{IsSound}
use interchain_communication.Core.Blockchain.Receiving.{on_ibc_packet-IsSound}
use interchain_communication.Core.Blockchain.Reach.{same_channels}
use interchain_communication.Core.Node.{
  Node, receive_tx, dispatch_packet, receive_ibc, handle_kind, handle_message, Round, waits, exits,
  goes_on, finish_round, take_message, run_round,
}

-- The chain that a round, or a message, leaves behind, if it leaves one.
abbrev pub LeavesSound : Round → Type 0
LeavesSound (goes_on n bc es) = IsSound bc
LeavesSound _ = Unit

abbrev Sound : Outcome (Blockchain × List Effect) → Type 0
Sound (returns (bc, es)) = IsSound bc
Sound (throws e) = Unit

receive_tx-Sound :
    (n : Node) (bc : Blockchain) (o : Outcome (Option Transaction))
    → IsSound bc
    → Sound (receive_tx n bc o)
unfolding receive_tx
receive_tx-Sound n bc (throws e) v = tt
receive_tx-Sound n bc (returns none) v = v
receive_tx-Sound n bc (returns (some tx)) v = same_channels refl refl v

dispatch_packet-IsSound :
    (bc : Blockchain) (p : IbcPacket) (t : IbcPacketType)
    → IsSound bc
    → IsSound (dispatch_packet bc p t).0
unfolding dispatch_packet
dispatch_packet-IsSound bc p data_packet v = on_ibc_packet-IsSound bc p v
dispatch_packet-IsSound bc p ack v = v
dispatch_packet-IsSound bc p (IbcPacketType.other z) v = v

receive_ibc-IsSound :
    (n : Node) (bc : Blockchain) (o : Outcome IbcPacket)
    → IsSound bc
    → IsSound (receive_ibc n bc o).0
unfolding receive_ibc
receive_ibc-IsSound n bc (throws e) v = v
receive_ibc-IsSound n bc (returns p) v = dispatch_packet-IsSound bc p p.type v

handle_kind-Sound :
    (n : Node) (bc : Blockchain) (m : NodeMessage) (k : NodeMessageKind)
    → IsSound bc
    → Sound (handle_kind n bc m k)
unfolding handle_kind
handle_kind-Sound n bc m transaction v = receive_tx-Sound n bc _ v
handle_kind-Sound n bc m block v = v
handle_kind-Sound n bc m ibc v = receive_ibc-IsSound n bc _ v
handle_kind-Sound n bc m _ v = v

finish_round-LeavesSound :
    (n : Node) (o : Outcome (Blockchain × List Effect)) → Sound o → LeavesSound (finish_round n o)
unfolding finish_round
finish_round-LeavesSound n (returns (bc, es)) v = v
finish_round-LeavesSound n (throws e) v = tt

take_message-LeavesSound :
    (n : Node) (bc : Blockchain) (p : ConcurrentQueue NodeMessage × Outcome NodeMessage)
    → IsSound bc
    → LeavesSound (take_message n bc p)
unfolding take_message handle_message
take_message-LeavesSound n bc (q, throws e) v = tt
take_message-LeavesSound n bc (q, returns m) v =
    finish_round-LeavesSound _ _ (handle_kind-Sound _ bc m m.kind v)

pub run_round-LeavesSound : (n : Node) (bc : Blockchain) → IsSound bc → LeavesSound (run_round n bc)
unfolding run_round
run_round-LeavesSound n bc v =
    if_keeps LeavesSound n.running _ exits
      (if_keeps LeavesSound (is_ready n.inbox) _ waits (take_message-LeavesSound n bc _ v) tt) tt
