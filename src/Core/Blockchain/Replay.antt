-- ===== src/Core/Blockchain/Replay.antt =====
-- The counters of a chain's channels never go back, so that a packet that was received is refused
-- from then on (src/core/Blockchain.cpp).
use interchain_communication.Prelude.{
  ℕ, ◌+◌, ◌≤◌, ◌<◌, ◌≡◌, refl, sym, ap, ◌∙◌, ◌⊎◌, inl, inr, Bool, true, false, [], Option, none,
  some, Bytes, bytes_eq, bytes_eq_iff, ==_iff, subst, lookup, if◌then◌else◌, if_keeps, Bool-cases,
  u64_mod, incr64, arith,
}
use interchain_communication.Util.Error.{is_ok, Status}
use interchain_communication.Ibc.Types.{IbcPacket}
use interchain_communication.Ibc.Channel.{IbcChannel, new_channel}
use interchain_communication.Core.Block.{Block}
use interchain_communication.Core.Blockchain.{
  Blockchain, make_channel_key, open_stored, open_ibc_channel, close_ibc_channel, on_ibc_packet,
  append_block, register_node_id, receive_effects,
}
use interchain_communication.Core.Blockchain.Channels.{
  IsSound, or_new, channel_at, opened_at, Updated, opens_at,
}
use interchain_communication.Core.Blockchain.Sending.{send_ibc_lem}
use interchain_communication.Core.Blockchain.Receiving.{
  is_next, behind, on_ibc_packet_lem, on_ibc_packet-IsSound, channel_behind,
}
use interchain_communication.Core.Blockchain.Reach.{
  Step, opens, closes, sends, receives, appends, registers, pools, Reach, here, next, Reach-IsSound,
  same_channels,
}
use interchain_communication.Ibc.Router.{bind}

-- The counter under a key; a new channel counts from one.
abbrev seq_of : Option IbcChannel → ℕ
seq_of none = 1
seq_of (some c) = c.next_seq

abbrev counter : Blockchain → Bytes → ℕ
counter bc key = seq_of (lookup key bc.channels)

or_new-seq :
    (c : IbcChannel) (o : Option IbcChannel) → c.next_seq ≡ 1 → (or_new c o).next_seq ≡ seq_of o
or_new-seq c none e = e
or_new-seq c (some d) e = refl

counter_at :
    (bc : Blockchain) (port chan : Bytes)
    → (channel_at bc port chan).next_seq ≡ counter bc (make_channel_key port chan)
unfolding new_channel
counter_at bc port chan =
    or_new-seq (new_channel bc.chain_id port chan) (lookup (make_channel_key port chan) bc.channels)
      refl

-- A counter stays or moves on.
abbrev Moves : ℕ → ℕ → Type 0
Moves n m = (m ≡ n) ⊎ (m ≡ incr64 n)

record Advances (bc bc' : Blockchain) : Type 0 where
  moves : (key : Bytes) → Moves (counter bc key) (counter bc' key)

Updated-Advances :
    (bc bc' : Blockchain) (key : Bytes) (c : IbcChannel)
    → Updated bc key c bc'
    → Moves (counter bc key) c.next_seq
    → Advances bc bc'
Updated-Advances bc bc' key c u m = record {
  moves = λ k. elim (Bool-cases (bytes_eq key k)) [
    | inl e ↦
        rw (u.at k, e) (subst (λ j. Moves (counter bc j) c.next_seq) ((bytes_eq_iff key k).0 e) m)
    | inr e ↦ rw (u.at k, e) (inl refl)
  ];
}

same-Advances : (bc bc' : Blockchain) → bc'.channels ≡ bc.channels → Advances bc bc'
same-Advances bc bc' e = record { moves = λ key. inl (ap (λ d. seq_of (lookup key d)) e) }

opened-Advances :
    (bc : Blockchain) (port chan : Bytes) → IsSound bc → Advances bc (open_stored bc port chan).0
opened-Advances bc port chan v =
    Updated-Advances bc _ (make_channel_key port chan) (opened_at bc port chan)
      (opens_at bc port chan v).0 (inl (counter_at bc port chan))

open_ibc_channel-Advances :
    (bc : Blockchain) (port chan : Bytes)
    → IsSound bc
    → Advances bc (open_ibc_channel bc port chan).0
unfolding open_ibc_channel
open_ibc_channel-Advances bc port chan v =
    let bound : Blockchain = record bc { router = (bind bc.router port chan).0 } in
    let a = opened-Advances bound port chan (same_channels {bc = bc} {bc' = bound} refl refl v) in
    let b : Advances bc (open_stored bound port chan).0 = record { moves = a.moves } in
    if_keeps (λ (r : Blockchain × Status). Advances bc r.0) _ _ _ (same-Advances bc bc refl)
      (if_keeps (λ (r : Blockchain × Status). Advances bc r.0) _ _ _ b b)

received-Moves :
    (bc : Blockchain) (p : IbcPacket) (received : Bool)
    → Moves (counter bc (make_channel_key p.dst_port p.dst_channel)) (behind bc p received).next_seq
received-Moves bc p true = inr (ap incr64 (counter_at bc p.dst_port p.dst_channel))
received-Moves bc p false = inl (counter_at bc p.dst_port p.dst_channel)

-- What touches no channel.
close_ibc_channel-Advances :
    (bc : Blockchain) (port chan : Bytes) → Advances bc (close_ibc_channel bc port chan).0
unfolding close_ibc_channel
close_ibc_channel-Advances bc port chan = same-Advances bc _ refl

append_block-Advances : (bc : Blockchain) (b : Block) → Advances bc (append_block bc b).0
unfolding append_block
append_block-Advances bc b = same-Advances bc (append_block bc b).0 (ground arith)

register_node_id-Advances : (bc : Blockchain) (id : Bytes) → Advances bc (register_node_id bc id)
unfolding register_node_id
register_node_id-Advances bc id = same-Advances bc (register_node_id bc id) (ground arith)

Step-Advances : {bc bc' : Blockchain} → Step bc bc' → IsSound bc → Advances bc bc'
Step-Advances {bc} (opens port chan) v = open_ibc_channel-Advances bc port chan v
Step-Advances {bc} (closes port chan) v = close_ibc_channel-Advances bc port chan
Step-Advances {bc} (sends port chan dst_chain dst_port dst_chan payload) v =
    Updated-Advances bc _ (make_channel_key port chan) _
      (send_ibc_lem bc port chan dst_chain dst_port dst_chan payload v).3
      (inr (ap incr64 (counter_at bc port chan)))
Step-Advances {bc} (receives p) v =
    Updated-Advances bc _ (make_channel_key p.dst_port p.dst_channel) _ (on_ibc_packet_lem bc p v).2
      (received-Moves bc p (is_next bc p))
Step-Advances {bc} (appends b) v = append_block-Advances bc b
Step-Advances {bc} (registers id) v = register_node_id-Advances bc id
Step-Advances {bc} (pools txs) v = same-Advances bc _ refl

abbrev pub steps : {bc bc' : Blockchain} → Reach bc bc' → ℕ
steps here = 0
steps (next r s) = steps r + 1

stays_between :
    (n k m m' : ℕ)
    → n ≤ m
    → m ≤ n + k
    → n + (k + 1) < u64_mod
    → Moves m m'
    → (n ≤ m') × (m' ≤ n + (k + 1))
stays_between n k m m' lo hi small (inl e) = (omega (arith, lo, e), omega (arith, hi, e))
stays_between n k m m' lo hi small (inr e) = (ground arith, ground arith)

-- While no counter can wrap, it is between where it was and so many steps further.
counter_between :
    {bc bc' : Blockchain} (key : Bytes) (r : Reach bc bc')
    → IsSound bc
    → counter bc key + steps r < u64_mod
    → (counter bc key ≤ counter bc' key) × (counter bc' key ≤ counter bc key + steps r)
counter_between key here v small = (omega arith, omega arith)
counter_between {bc} key (next {bc'} {bc''} r s) v small =
    let (lo, hi) = counter_between key r v (omega (arith, small)) in
    stays_between (counter bc key) (steps r) (counter bc' key) (counter bc'' key) lo hi small
      ((Step-Advances s (Reach-IsSound r v)).moves key)

-- A packet that a chain has received is refused for good: whatever methods are called on the chain
-- since then, in any order, when it arrives again it is refused and nothing is published, as long as
-- its sequence number and the number of the calls stay below 2 ^ 64 together.
pub never_received_again :
    (bc : Blockchain) (p : IbcPacket)
    → IsSound bc
    → is_ok (on_ibc_packet bc p).1 ≡ true
    → {bc' : Blockchain} (r : Reach (on_ibc_packet bc p).0 bc') → p.sequence + 1 + steps r < u64_mod
    → (is_ok (on_ibc_packet bc' p).1 ≡ false) × ((on_ibc_packet bc' p).2 ≡ [])
never_received_again bc p v h {bc'} r small =
    let key = make_channel_key p.dst_port p.dst_channel in
    let w = on_ibc_packet-IsSound bc p v in
    let (succeeds, _, updated) = on_ibc_packet_lem bc p v in
    let next : is_next bc p ≡ true = sym succeeds ∙ h in
    let after : counter (on_ibc_packet bc p).0 key ≡ incr64 p.sequence =
      sym (counter_at (on_ibc_packet bc p).0 p.dst_port p.dst_channel)
      ∙ (ap (λ (c : IbcChannel). c.next_seq)
            (channel_behind bc (on_ibc_packet bc p).0 p.dst_port p.dst_channel _ updated)
          ∙ (ap (λ b. (behind bc p b).next_seq) next ∙ ap incr64 (sym ((==_iff _ _).0 next)))) in
    let (lo, _) = counter_between key r w (omega (arith, after, small)) in
    let stale : is_next bc' p ≡ false =
      ground (arith, after, lo, small, counter_at bc' p.dst_port p.dst_channel) in
    let (refused, silent, _) = on_ibc_packet_lem bc' p (Reach-IsSound r w) in
    (
      refused ∙ stale,
      silent ∙ ap (λ b. if b then receive_effects (on_ibc_packet bc' p).0 p else []) stale,
    )
