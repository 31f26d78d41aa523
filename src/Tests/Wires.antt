-- ===== src/Tests/Wires.antt =====
-- The transport, the queue and the bus at concrete inputs.
use interchain_communication.Prelude.{
  ℕ, ◌+◌, ◌<◌, ◌≡◌, refl, Bool, true, false, List, [], ◌∷◌, ◌++◌, Bytes, codes, length, bytes_eq,
  lookup, insert, u64_mod, arith,
}
use interchain_communication.Util.Error.{throws, queue_closed, is_ok}
use interchain_communication.Util.Queue.{ConcurrentQueue, push, close, is_ready}
use interchain_communication.Util.Queue.Fifo.{
  Call, pushes, tries, waits, closes, begin, run, first_in_first_out, closed_for_good,
}
use interchain_communication.Net.Topology.{PeerId, LinkSpec, peer_id_equal, add_link, neighbors}
use interchain_communication.Net.Transport.{
  NetworkParams, Transport, Phase, new_transport, register_endpoint, has_endpoint, schedule, send,
  should_drop, push_task, take_task, take_from, work, is_drained, deliver_to,
}
use interchain_communication.Net.Transport.Order.{IsSorted, IsNext, queue_in_order}
use interchain_communication.Net.Transport.Workers.{
  count, held, total, work_at, calls_at, missed_at,
}
use interchain_communication.Net.Transport.Deliveries.{picks, count_calls}
use interchain_communication.Net.Transport.Pool.{
  Pool, new_pool, works, accepts, registers, Reach, here, next,
}
use interchain_communication.Net.Transport.Drain.{nothing_lost, drained_is_delivered}

abbrev queue : ConcurrentQueue ℕ
queue = record { items = 4 ∷ []; is_closed = false }

abbrev calls : List (Call ℕ)
calls = pushes 5 ∷ tries ∷ pushes 6 ∷ waits ∷ closes ∷ pushes 7 ∷ []

first_in_first_out_example :
    (run (begin queue) calls).took
    ≡ (run (begin queue) calls).gave ++ (run (begin queue) calls).queue.items
first_in_first_out_example = first_in_first_out queue calls

closed_for_good_example :
    ((run (begin (close queue)) calls).took ≡ 4 ∷ [])
    × (is_ready (run (begin (close queue)) calls).queue ≡ true)
    × (push (run (begin (close queue)) calls).queue 8 ≡ throws queue_closed)
closed_for_good_example = closed_for_good queue calls 8

abbrev params : NetworkParams
params = record { latency = 5; drop_rate = 0 }

abbrev loaded : Transport ℕ
loaded = record {
  params = params;
  has_logger = false;
  endpoints = (codes "m", 7) ∷ [];
  running = true;
  tasks =
      record { deliver_at = 3; to = codes "m"; bytes = codes "x" }
      ∷ record { deliver_at = 9; to = codes "m"; bytes = codes "y" }
      ∷ [];
  pending_count = 2;
  inflight_count = 0;
}

queue_in_order_example :
    IsSorted (schedule loaded (codes "m") (codes "z") 1).tasks
    × IsNext loaded.tasks 4 (take_task loaded 4)
    × IsSorted (take_task loaded 4).0.tasks
unfolding IsSorted
queue_in_order_example =
    queue_in_order loaded (codes "m") (codes "z") 1 4 ((omega arith, tt), (tt, tt))

-- All functions of this run serve one address.
abbrev serves : ℕ → Bytes
serves h = codes "m"

abbrev start : Pool ℕ
start = new_pool params false 2

abbrev registered : Transport ℕ
registered = (register_endpoint start.transport (codes "m") 7).0

abbrev accepted_once : Transport ℕ
accepted_once = (send registered (codes "r") (codes "m") (codes "x") 0 10).0

is_taken : is_ok (send registered (codes "r") (codes "m") (codes "x") 0 10).1 ≡ true
unfolding send register_endpoint has_endpoint new_transport lookup insert bytes_eq should_drop
is_taken = refl

abbrev after_work : Pool ℕ → Pool ℕ
after_work p = record p {
  transport = (work_at p.transport p.workers 0 20).0;
  workers = (work_at p.transport p.workers 0 20).1;
  calls = calls_at p.transport p.workers 0 20 ++ p.calls;
  lost = missed_at p.transport p.workers 0 ++ p.lost;
}

abbrev accepted_pool : Pool ℕ
accepted_pool = record {
  transport = accepted_once;
  workers = start.workers;
  accepted =
      record { deliver_at = 10 + registered.params.latency; to = codes "m"; bytes = codes "x" }
      ∷ [];
  calls = [];
  lost = [];
}

accepted_pool-Reach : Reach serves start accepted_pool
accepted_pool-Reach =
    next (next here (registers 7)) (accepts (codes "r") (codes "m") (codes "x") 0 10 is_taken)

-- One worker goes round its loop once.
abbrev delivered_pool : Pool ℕ
delivered_pool =
    after_work (after_work (after_work (after_work (after_work (after_work accepted_pool)))))

delivered_pool-Reach : Reach serves start delivered_pool
delivered_pool-Reach =
    next
      (next
        (next (next (next (next accepted_pool-Reach (works 0 20)) (works 0 20)) (works 0 20))
          (works 0 20))
        (works 0 20))
      (works 0 20)

abbrev to_m : Bytes → Bytes → Bool
to_m to body = bytes_eq to (codes "m")

nothing_lost_example :
    count (picks to_m) delivered_pool.accepted
    ≡ count (picks to_m) delivered_pool.transport.tasks
      + total (λ (w : Phase ℕ). count (picks to_m) (held w)) delivered_pool.workers
      + count_calls serves to_m delivered_pool.calls
      + count (picks to_m) delivered_pool.lost
nothing_lost_example = nothing_lost serves params false 2 delivered_pool to_m delivered_pool-Reach

-- The one message was delivered by a call.
was_called : delivered_pool.calls ≡ (7, codes "x") ∷ []
unfolding calls_at work_at work take_task take_from send schedule push_task register_endpoint
    has_endpoint new_transport lookup insert bytes_eq should_drop deliver_to
was_called = refl

is_small : length delivered_pool.transport.tasks + length delivered_pool.workers < u64_mod
unfolding work_at work take_task take_from send schedule push_task register_endpoint has_endpoint
    new_transport lookup insert bytes_eq should_drop
is_small = omega arith

is_drained_now : is_drained delivered_pool.transport ≡ true
unfolding is_drained work_at work take_task take_from send schedule push_task register_endpoint
    has_endpoint new_transport lookup insert bytes_eq should_drop
is_drained_now = refl

drained_is_delivered_example :
    (delivered_pool.transport.tasks ≡ [])
    × (count_calls serves to_m delivered_pool.calls + count (picks to_m) delivered_pool.lost
        ≡ count (picks to_m) delivered_pool.accepted)
drained_is_delivered_example =
    drained_is_delivered serves params false 2 delivered_pool to_m delivered_pool-Reach is_small
      is_drained_now

abbrev peer : Bytes → PeerId
peer id = record { chain_id = codes "chain-A"; node_id = id }

abbrev link : Bytes → Bytes → LinkSpec
link from to = record { from = peer from; to = peer to }

links_are_directed :
    neighbors
      (add_link (link (codes "0") (codes "1") ∷ []) (link (codes "2") (codes "0")))
      (peer (codes "0"))
    ≡ peer (codes "1") ∷ []
unfolding neighbors add_link peer_id_equal bytes_eq
links_are_directed = refl
