-- ===== src/Ibc/Relayer/Counts.antt =====
-- What a round of the relayer does with its queues and counters.
use interchain_communication.Prelude.{
  ℕ, ◌+◌, ◌<◌, ◌≤◌, ◌≡◌, List, [], ◌∷◌, Option, none, some, length, u64_mod, arith,
}
use interchain_communication.Util.Queue.{ConcurrentQueue, try_pop}
use interchain_communication.Ibc.Types.{IbcPacket}
use interchain_communication.Net.Transport.{Transport}
use interchain_communication.Ibc.Relayer.{
  Relayer, Draws, after_packet, after_ack, process_packet, process_ack, run_round,
}

-- Packets and acknowledgements that wait, and those that were relayed or failed.
abbrev pub total : Relayer → ℕ
total r =
    length r.pending_packets.items
    + length r.pending_acks.items
    + (r.packets_relayed + r.acks_relayed + r.failures)

-- Room in each counter for two more.
pub record HasRoom (r : Relayer) : Type 0 where
  pub packets : r.packets_relayed + 2 < u64_mod
  pub acks : r.acks_relayed + 2 < u64_mod
  pub failed : r.failures + 2 < u64_mod

-- What the two halves of a round leave alone.
abbrev popped : Option IbcPacket → ℕ
popped none = 0
popped (some p) = 1

length-try_pop :
    (q : ConcurrentQueue IbcPacket)
    → length (try_pop q).0.items + popped (try_pop q).1 ≡ length q.items
unfolding try_pop
length-try_pop q = by_items q.items
  where
    by_items :
        (ps : List IbcPacket)
        → length (try_pop (record q { items = ps })).0.items
            + popped (try_pop (record q { items = ps })).1
          ≡ length ps
    by_items [] = omega arith
    by_items (p ∷ ps) = omega arith

module _ {H : Type 0} (t : Transport H) (u : Draws) (now : ℕ) where
  packet_half :
      (r : Relayer) (o : Option IbcPacket)
      → HasRoom r
      → let r' = (process_packet r t o u now).0 in
        (total r' ≡ total r + popped o)
        × (r'.acks_relayed ≡ r.acks_relayed)
        × (r'.failures ≤ r.failures + 1)
        × (r'.pending_acks ≡ r.pending_acks)
  unfolding process_packet after_packet
  packet_half r none h = ground arith
  packet_half r (some p) h = ground arith

  ack_half :
      (r : Relayer) (o : Option IbcPacket)
      → r.acks_relayed + 1 < u64_mod
      → r.failures + 1 < u64_mod
      → total (process_ack r t o u now).0 ≡ total r + popped o
  unfolding process_ack after_ack
  ack_half r none h k = ground arith
  ack_half r (some p) h k = ground arith

-- Every packet and acknowledgement that a round takes is counted once, as relayed or as failed: the
-- number of those that wait and those that are counted stays what it was.
pub total-run_round :
    {H : Type 0} (r : Relayer) (t : Transport H) (u v : Draws) (now : ℕ)
    → HasRoom r
    → total (run_round r t u v now).0 ≡ total r
unfolding run_round
total-run_round r t u v now h =
    let (packets, p) = try_pop r.pending_packets in
    let r1 : Relayer = record r { pending_packets = packets } in
    let (first, acks_kept, failed, queue_kept) =
      packet_half t u now r1 p (record { packets = h.packets; acks = h.acks; failed = h.failed }) in
    let r2 = (process_packet r1 t p u now).0 in
    let (acks, a) = try_pop r2.pending_acks in
    let second =
      ack_half (process_packet r1 t p u now).1 v now (record r2 { pending_acks = acks }) a
        (omega (arith, acks_kept, h.acks)) (omega (arith, failed, h.failed)) in
    omega (arith, first, second, length-try_pop r.pending_packets, length-try_pop r2.pending_acks)
