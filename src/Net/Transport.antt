-- ===== src/Net/Transport.antt =====
-- src/net/Transport.h and Transport.cpp: endpoints, delayed delivery, and the four worker threads.
-- A block of code under one lock is one step. A probability is a whole number of millionths; a draw
-- of the random number generator, and the clock's reading, are arguments. The delivery functions
-- are a type `H`: a step that calls one returns it with its argument. Among tasks due at the same
-- time, an order that the source's heap leaves open, the one pushed first is on top.
pub mod Workers
pub mod Order
pub mod Deliveries
pub mod Pool
pub mod Drain
use interchain_communication.Prelude.{
  ℕ, ◌+◌, ◌-◌, ◌*◌, ◌/◌, Bool, true, false, ◌&&◌, not, List, [], ◌∷◌, ◌++◌, Option, none, some,
  Bytes, Dict, lookup, insert, remove, length, ltb, leb, ◌==◌, if◌then◌else◌, incr64, decr64,
}
use interchain_communication.Util.Error.{Status, status, ErrorCode}
use interchain_communication.Core.Effect.{Effect, logs_network_drop, detailed}

-- A probability of 1.
abbrev pub rate_one : ℕ
rate_one = 1000000

-- `std::uniform_real_distribution(a, b)` of a draw `u` from the unit interval: a + (b - a) * u.
abbrev pub uniform : ℕ → ℕ → ℕ → ℕ
uniform a b u = a + (b - a) * u / rate_one

-- The helper of Transport.cpp: its distribution runs from 1.0 to 1.0.
unfoldable pub should_drop : ℕ → ℕ → Bool
should_drop u drop_rate = ltb (uniform rate_one rate_one u) drop_rate

pub record NetworkParams : Type 0 where
  pub latency : ℕ
  pub drop_rate : ℕ

pub record DeliveryTask : Type 0 where
  pub deliver_at : ℕ
  pub to : Bytes
  pub bytes : Bytes

pub record Transport (H : Type 0) : Type 0 where
  pub params : NetworkParams
  pub has_logger : Bool
  pub endpoints : Dict H
  pub running : Bool
  pub tasks : List DeliveryTask
  pub pending_count : ℕ
  pub inflight_count : ℕ

-- `tasks_.push`: the list is the order in which the queue hands its tasks out.
unfoldable pub push_task : DeliveryTask → List DeliveryTask → List DeliveryTask
push_task t [] = t ∷ []
push_task t (x ∷ xs) = if ltb t.deliver_at x.deliver_at then t ∷ x ∷ xs else x ∷ push_task t xs

-- What a worker thread is at: the head of its loop, its wait for a task, a task that it has popped,
-- has counted in flight, has looked the endpoint up of or has delivered, or its end.
pub data Phase (H : Type 0) : Type 0 where
  at_head : Phase H
  waiting : Phase H
  popped : DeliveryTask → Phase H
  counted : DeliveryTask → Phase H
  delivering : Option H → DeliveryTask → Phase H
  delivered : Phase H
  ended : Phase H

-- The delivery functions that are called, each with its argument.
abbrev pub Calls : Type 0 → Type 0
Calls H = List (H × Bytes)

module _ {H : Type 0} where
  unfoldable pub new_transport : NetworkParams → Bool → Transport H
  new_transport params has_logger = record {
    params = params;
    has_logger = has_logger;
    endpoints = [];
    running = true;
    tasks = [];
    pending_count = 0;
    inflight_count = 0;
  }

  -- `endpoints_.count(address)`.
  unfoldable pub has_endpoint : Transport H → Bytes → Bool
  has_endpoint t address = elim (lookup address t.endpoints) [ none ↦ false | some h ↦ true ]

  unfoldable pub register_endpoint : Transport H → Bytes → H → Transport H × Status
  register_endpoint t address deliver =
      if has_endpoint t address
      then (t, status ErrorCode.invalid_state "Endpoint already registered")
      else (record t { endpoints = insert address deliver t.endpoints }, status ErrorCode.ok "")

  unfoldable pub unregister_endpoint : Transport H → Bytes → Transport H × Status
  unregister_endpoint t address =
      if has_endpoint t address
      then (record t { endpoints = remove address t.endpoints }, status ErrorCode.ok "")
      else (t, status ErrorCode.not_found "Endpoint not registered")

  unfoldable pub schedule : Transport H → Bytes → Bytes → ℕ → Transport H
  schedule t to body now =
      let task : DeliveryTask = record {
        deliver_at = now + t.params.latency;
        to = to;
        bytes = body;
      } in
      record t { tasks = push_task task t.tasks; pending_count = incr64 t.pending_count }

  unfoldable pub send :
      Transport H → Bytes → Bytes → Bytes → ℕ → ℕ → Transport H × Status × List Effect
  send t from to body u now =
      if not (has_endpoint t to)
      then (t, status ErrorCode.not_found "Destination endpoint not found", [])
      else if should_drop u t.params.drop_rate
      then (
        t,
        status ErrorCode.network_drop "Packet dropped by network",
        detailed t.has_logger (logs_network_drop from to (length body)),
      )
      else (schedule t to body now, status ErrorCode.ok "", [])

  unfoldable pub set_params : Transport H → NetworkParams → Transport H
  set_params t p = record t { params = p }

  -- What `waitForPendingDeliveries` waits for.
  unfoldable pub is_drained : Transport H → Bool
  is_drained t = t.pending_count == 0 && t.inflight_count == 0

  -- `running_.exchange(false)` of `shutdown`; its joins are in Sim.System.Stopping.
  unfoldable pub stop_running : Transport H → Transport H
  stop_running t = record t { running = false }

  -- `if (deliver) deliver(task.data)`.
  unfoldable pub deliver_to : Option H → DeliveryTask → Calls H
  deliver_to none task = []
  deliver_to (some h) task = (h, task.bytes) ∷ []

  -- The block of `workerLoop` that takes a task. An empty queue leaves the worker waiting while the
  -- transport runs, and a task that is not due yet sends it back to the head of the loop.
  unfoldable pub take_from : Transport H → List DeliveryTask → ℕ → Transport H × Phase H
  take_from t [] now = (t, if t.running then waiting else ended)
  take_from t (task ∷ rest) now =
      if leb task.deliver_at now then (record t { tasks = rest }, popped task) else (t, at_head)

  unfoldable pub take_task : Transport H → ℕ → Transport H × Phase H
  unfolding take_from
  take_task t now = take_from t t.tasks now

  -- The next block of a worker, and the delivery function that it calls.
  unfoldable pub work : Transport H → Phase H → ℕ → Transport H × Phase H × Calls H
  work t at_head now = (t, (if t.running then waiting else ended), [])
  work t waiting now = let (t', phase) = take_task t now in (t', phase, [])
  work t (popped task) now = (
    record t { pending_count = decr64 t.pending_count; inflight_count = incr64 t.inflight_count },
    counted task,
    [],
  )
  work t (counted task) now = (t, delivering (lookup task.to t.endpoints) task, [])
  work t (delivering deliver task) now = (t, delivered, deliver_to deliver task)
  work t delivered now = (record t { inflight_count = decr64 t.inflight_count }, at_head, [])
  work t ended now = (t, ended, [])
