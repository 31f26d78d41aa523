-- ===== src/Net/Transport/Drain.antt =====
-- No message goes astray, and what `waitForPendingDeliveries` waits for (src/net/Transport.cpp).
use interchain_communication.Prelude.{
  Bytes, none, some, ℕ, ◌+◌, ◌≤◌, ◌<◌, ◌≡◌, refl, ap, Bool, true, List, [], ◌∷◌, length, u64_mod,
  arith,
}
use interchain_communication.Net.Transport.{
  NetworkParams, DeliveryTask, Phase, at_head, waiting, popped, counted, delivering, delivered,
  ended, is_drained,
}
use interchain_communication.Net.Transport.Workers.{count, n_popped, n_busy, held, total}
use interchain_communication.Net.Transport.Deliveries.{picks, count_calls}
use interchain_communication.Net.Transport.Pool.{
  Pool, new_pool, Reach, Reach-IsTracked, new_pool-IsTracked,
}

module _ {H : Type 0} where
  popped_le : (ws : List (Phase H)) → total n_popped ws + total n_busy ws ≤ length ws
  popped_le [] = omega arith
  popped_le (w ∷ ws) = omega (arith, one_each w, popped_le ws)
    where
      one_each : (v : Phase H) → n_popped v + n_busy v ≤ 1
      one_each (popped task) = omega arith
      one_each at_head = omega arith
      one_each waiting = omega arith
      one_each (counted task) = omega arith
      one_each (delivering d task) = omega arith
      one_each delivered = omega arith
      one_each ended = omega arith

  held_le : (q : DeliveryTask → Bool) (w : Phase H) → count q (held w) ≤ n_popped w + n_busy w
  held_le q at_head = omega arith
  held_le q waiting = omega arith
  held_le q (popped task) = ground arith
  held_le q (counted task) = ground arith
  held_le q (delivering none task) = omega arith
  held_le q (delivering (some d) task) = ground arith
  held_le q delivered = omega arith
  held_le q ended = omega arith

  total-held_le :
      (q : DeliveryTask → Bool) (ws : List (Phase H))
      → total (λ (w : Phase H). count q (held w)) ws ≤ total n_popped ws + total n_busy ws
  total-held_le q [] = omega arith
  total-held_le q (w ∷ ws) = omega (arith, held_le q w, total-held_le q ws)

-- `address_of` is the address that each delivery function serves: it is registered for that one.
module _ {H : Type 0} (address_of : H → Bytes) where
  -- At every moment, each message that `send` took is still queued, held by a worker, delivered or
  -- lost, and exactly one of these: counted by any property of addresses and bytes, the accepted
  -- messages are the queued and the held ones, the calls that workers have made of the functions of
  -- the messages' addresses with the messages' bytes, and the messages whose address had no endpoint
  -- any more when a worker looked it up. A call of `send` that is refused adds none.
  pub nothing_lost :
      (params : NetworkParams) (has_logger : Bool) (size : ℕ) (p : Pool H)
      (q : Bytes → Bytes → Bool)
      → Reach address_of (new_pool params has_logger size) p
      → count (picks q) p.accepted
        ≡ count (picks q) p.transport.tasks
          + total (λ (w : Phase H). count (picks q) (held w)) p.workers
          + count_calls address_of q p.calls
          + count (picks q) p.lost
  nothing_lost params has_logger size p q r =
      (Reach-IsTracked address_of r (new_pool-IsTracked address_of params has_logger size)).kept q

  -- When the condition of `waitForPendingDeliveries` holds, and fewer than 2 ^ 64 messages and workers
  -- are there, the queue is empty, and each accepted message was delivered or lost: counted by any
  -- property of addresses and bytes, the accepted messages are the calls that workers have made of the
  -- functions of the messages' addresses with the messages' bytes, and the messages whose address had
  -- no endpoint any more when a worker looked it up.
  pub drained_is_delivered :
      (params : NetworkParams) (has_logger : Bool) (size : ℕ) (p : Pool H)
      (q : Bytes → Bytes → Bool)
      → Reach address_of (new_pool params has_logger size) p
      → length p.transport.tasks + length p.workers < u64_mod
      → is_drained p.transport ≡ true
      → (p.transport.tasks ≡ [])
        × (count_calls address_of q p.calls + count (picks q) p.lost ≡ count (picks q) p.accepted)
  unfolding is_drained
  drained_is_delivered params has_logger size p q r small drained =
      let s = Reach-IsTracked address_of r (new_pool-IsTracked address_of params has_logger size) in
      let empty =
        empty_of p.transport.tasks
          (ground (arith, s.counts.0, popped_le p.workers, small, drained)) in
      let idle : total n_busy p.workers + total n_popped p.workers ≡ 0 =
        ground (arith, s.counts.0, s.counts.1, popped_le p.workers, small, drained) in
      (
        empty,
        omega
            (arith, s.kept q, ap (count (picks q)) empty, total-held_le (picks q) p.workers, idle),
      )
    where
      empty_of : (tasks : List DeliveryTask) → length tasks ≡ 0 → tasks ≡ []
      empty_of [] h = refl
      empty_of (x ∷ tasks) h = absurd (omega (arith, h))
