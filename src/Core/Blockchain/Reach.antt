-- ===== src/Core/Blockchain/Reach.antt =====
-- The states that a chain reaches, by any interleaving of its methods.
use interchain_communication.Prelude.{
  ◌≡◌, refl, sym, ap, ◌∙◌, Bool, true, List, Bytes, lookup, if_keeps,
}
use interchain_communication.Util.Error.{is_ok, Status}
use interchain_communication.Ibc.Types.{IbcPacket}
use interchain_communication.Core.Effect.{Effect}
use interchain_communication.Core.Blockchain.{
  Blockchain, open_stored, open_ibc_channel, close_ibc_channel, send_ibc, on_ibc_packet,
  new_blockchain, append_block, register_node_id,
}
use interchain_communication.Core.Block.{Block}
use interchain_communication.Core.Mempool.{Mempool}
use interchain_communication.Core.Blockchain.Channels.{
  IsSound, channel_at-IsUsable, channel_at-own, Updated-IsSound, opens_at,
}
use interchain_communication.Core.Blockchain.Sending.{send_ibc_lem, send_ibc-IsSound}
use interchain_communication.Core.Blockchain.Receiving.{on_ibc_packet_lem, on_ibc_packet-IsSound}
use interchain_communication.Ibc.Router.{bind, unbind}

-- Each method holds the chain's mutex, so the threads' calls come in some order. The mempool has no
-- lock of its own; whoever holds the reference changes it as a whole.
pub data Step (bc : Blockchain) : Blockchain → Type 0 where
  opens : (port chan : Bytes) → Step bc (open_ibc_channel bc port chan).0
  closes : (port chan : Bytes) → Step bc (close_ibc_channel bc port chan).0
  sends :
      (port chan dst_chain dst_port dst_chan payload : Bytes)
      → Step bc (send_ibc bc port chan dst_chain dst_port dst_chan payload).0
  receives : (p : IbcPacket) → Step bc (on_ibc_packet bc p).0
  appends : (b : Block) → Step bc (append_block bc b).0
  registers : (id : Bytes) → Step bc (register_node_id bc id)
  pools : (txs : Mempool) → Step bc (record bc { mempool = txs })

pub data Reach (bc : Blockchain) : Blockchain → Type 0 where
  here : Reach bc bc
  next : {bc' bc'' : Blockchain} → Reach bc bc' → Step bc' bc'' → Reach bc bc''

-- What a step leaves alone keeps the invariant.
pub same_channels :
    {bc bc' : Blockchain}
    → bc'.channels ≡ bc.channels
    → bc'.chain_id ≡ bc.chain_id
    → IsSound bc
    → IsSound bc'
same_channels e f v = record {
  own = λ key c h. v.own key c (ap (lookup key) (sym e) ∙ h) ∙ sym f;
  usable = λ key c h. v.usable key c (ap (lookup key) (sym e) ∙ h);
}

opened-IsSound :
    (bc : Blockchain) (port chan : Bytes) → IsSound bc → IsSound (open_stored bc port chan).0
opened-IsSound bc port chan v =
    Updated-IsSound _ v (λ q. cc, (channel_at-IsUsable bc port chan v).1)
      (channel_at-own bc port chan v) (opens_at bc port chan v).0

pub open_ibc_channel-IsSound :
    (bc : Blockchain) (port chan : Bytes) → IsSound bc → IsSound (open_ibc_channel bc port chan).0
unfolding open_ibc_channel
open_ibc_channel-IsSound bc port chan v =
    let bound : Blockchain = record bc { router = (bind bc.router port chan).0 } in
    let w = opened-IsSound bound port chan (same_channels {bc = bc} {bc' = bound} refl refl v) in
    if_keeps (λ (r : Blockchain × Status). IsSound r.0) _ _ _ v
      (if_keeps (λ (r : Blockchain × Status). IsSound r.0) _ _ _ w w)

Step-IsSound : {bc bc' : Blockchain} → Step bc bc' → IsSound bc → IsSound bc'
Step-IsSound {bc} (opens port chan) v = open_ibc_channel-IsSound bc port chan v
Step-IsSound {bc} (closes port chan) v = unfold close_ibc_channel in same_channels refl refl v
Step-IsSound {bc} (sends port chan dst_chain dst_port dst_chan payload) v =
    send_ibc-IsSound bc port chan dst_chain dst_port dst_chan payload v
Step-IsSound {bc} (receives p) v = on_ibc_packet-IsSound bc p v
Step-IsSound {bc} (appends b) v =
    unfold append_block in
    if_keeps (λ (r : Blockchain × Status × List Effect). IsSound r.0) _ _ _ v
      (same_channels refl refl v)
Step-IsSound {bc} (registers id) v =
    unfold register_node_id in if_keeps IsSound _ _ _ v (same_channels refl refl v)
Step-IsSound {bc} (pools txs) v = same_channels refl refl v

pub Reach-IsSound : {bc bc' : Blockchain} → Reach bc bc' → IsSound bc → IsSound bc'
Reach-IsSound here v = v
Reach-IsSound (next r s) v = Step-IsSound s (Reach-IsSound r v)

pub new_blockchain-IsSound :
    (id : Bytes) (has_logger : Bool) → IsSound (new_blockchain id has_logger)
unfolding new_blockchain lookup
new_blockchain-IsSound id has_logger = record { own = λ key c h. cc; usable = λ key c h. cc }

-- Whatever methods have been called on a chain since it was made, in any order, none of its channels
-- is closed.
pub reachable-IsSound :
    (id : Bytes) (has_logger : Bool) {bc : Blockchain}
    → Reach (new_blockchain id has_logger) bc
    → IsSound bc
reachable-IsSound id has_logger r = Reach-IsSound r (new_blockchain-IsSound id has_logger)

-- Closing the channel of a chain stops nothing: `closeChannel` only removes the router's binding,
-- which neither sending nor receiving reads, so the next packet is sent with the same number, and a
-- packet is received exactly when it was before.
pub close_ibc_channel_stops_nothing :
    (id : Bytes) (has_logger : Bool) {bc : Blockchain}
    (port chan dst_chain dst_port dst_chan payload : Bytes) (p : IbcPacket)
    → Reach (new_blockchain id has_logger) bc
    → let after_close = (close_ibc_channel bc port chan).0 in
      ((send_ibc after_close port chan dst_chain dst_port dst_chan payload).1.value
        ≡ (send_ibc bc port chan dst_chain dst_port dst_chan payload).1.value)
      × (is_ok (send_ibc after_close port chan dst_chain dst_port dst_chan payload).1.status ≡ true)
      × (is_ok (on_ibc_packet after_close p).1 ≡ is_ok (on_ibc_packet bc p).1)
unfolding close_ibc_channel
close_ibc_channel_stops_nothing id has_logger {bc} port chan dst_chain dst_port dst_chan payload p
      r =
    let v = reachable-IsSound id has_logger r in
    let closed_bc : Blockchain = record bc { router = (unbind bc.router port chan).0 } in
    let w = same_channels {bc = bc} {bc' = closed_bc} refl refl v in
    let (sent, ok_now, _, _) =
      send_ibc_lem closed_bc port chan dst_chain dst_port dst_chan payload w in
    let (sent_before, _, _, _) = send_ibc_lem bc port chan dst_chain dst_port dst_chan payload v in
    (
      sent ∙ sym sent_before,
      ok_now,
      (on_ibc_packet_lem closed_bc p w).0 ∙ sym (on_ibc_packet_lem bc p v).0,
    )
