-- ===== src/Net/Transport/Pool.antt =====
-- The transport with its workers, at every moment (src/net/Transport.cpp): where each message is.
use interchain_communication.Prelude.{
  ap, sym, ◌∙◌, All, lookup, insert, remove, lookup-insert, lookup-remove, bytes_eq_iff, ℕ, zero,
  suc, ◌+◌, ◌≡◌, refl, Bool, true, false, List, [], ◌∷◌, ◌++◌, Bytes, if◌then◌else◌, Bool-cases,
  inl, inr, replicate, arith,
}
use interchain_communication.Util.Error.{is_ok}
use interchain_communication.Net.Transport.{
  should_drop, NetworkParams, DeliveryTask, Transport, Phase, Calls, at_head, new_transport,
  has_endpoint, register_endpoint, unregister_endpoint, schedule, send, set_params, stop_running,
}
use interchain_communication.Net.Transport.Workers.{
  count, count-push_task, length-push_task, n_popped, n_busy, held, total, work_at, calls_at,
  missed_at, Counts, same-Counts, work_at-Counts,
}
use interchain_communication.Net.Transport.Deliveries.{
  picks, count_calls, count_calls-append, Endpoints, IsAddressed, work_at-kept, work_at-IsAddressed,
  work_at-endpoints,
}

-- `accepted`, `calls` and `lost` are not in the source: the messages that `send` took, the calls that
-- the workers have made of the endpoints' functions, and the messages whose address had no endpoint
-- any more when a worker looked it up.
pub record Pool (H : Type 0) : Type 0 where
  pub transport : Transport H
  pub workers : List (Phase H)
  pub accepted : List DeliveryTask
  pub calls : Calls H
  pub lost : List DeliveryTask

count-append :
    (q : DeliveryTask → Bool) (xs ys : List DeliveryTask)
    → count q (xs ++ ys) ≡ count q xs + count q ys
count-append q [] ys = omega arith
count-append q (x ∷ xs) ys = omega (arith, count-append q xs ys)

module _ {H : Type 0} where
  abbrev pub new_pool : NetworkParams → Bool → ℕ → Pool H
  new_pool params has_logger size = record {
    transport = new_transport params has_logger;
    workers = replicate size at_head;
    accepted = [];
    calls = [];
    lost = [];
  }

  abbrev pub task_of : Transport H → Bytes → Bytes → ℕ → DeliveryTask
  task_of t to body now = record { deliver_at = now + t.params.latency; to = to; bytes = body }

-- `address_of` is the address that each delivery function serves.
module _ {H : Type 0} (address_of : H → Bytes) where
  -- A call of the transport, or one block of the `i`-th worker.
  pub data Step (p : Pool H) : Pool H → Type 0 where
    works :
        (i now : ℕ)
        → Step p (record p {
          transport = (work_at p.transport p.workers i now).0;
          workers = (work_at p.transport p.workers i now).1;
          calls = calls_at p.transport p.workers i now ++ p.calls;
          lost = missed_at p.transport p.workers i ++ p.lost;
        })
    accepts :
        (from to body : Bytes) (u now : ℕ)
        → is_ok (send p.transport from to body u now).1 ≡ true
        → Step p (record p {
          transport = (send p.transport from to body u now).0;
          accepted = task_of p.transport to body now ∷ p.accepted;
        })
    refuses :
        (from to body : Bytes) (u now : ℕ)
        → is_ok (send p.transport from to body u now).1 ≡ false
        → Step p (record p { transport = (send p.transport from to body u now).0 })
    registers :
        (deliver : H)
        → Step p (record p {
          transport = (register_endpoint p.transport (address_of deliver) deliver).0;
        })
    unregisters :
        (address : Bytes)
        → Step p (record p { transport = (unregister_endpoint p.transport address).0 })
    sets_params :
        (params : NetworkParams) → Step p (record p { transport = set_params p.transport params })
    shuts_down : Step p (record p { transport = stop_running p.transport })

  pub data Reach (p : Pool H) : Pool H → Type 0 where
    here : Reach p p
    next : {p' p'' : Pool H} → Reach p p' → Step p' p'' → Reach p p''

  pub record IsTracked (p : Pool H) : Type 0 where
    pub counts : Counts p.transport (total n_popped p.workers) (total n_busy p.workers)
    pub served : Endpoints address_of p.transport
    pub addressed : All (IsAddressed address_of) p.workers
    pub kept :
        (q : Bytes → Bytes → Bool)
        → count (picks q) p.accepted
          ≡ count (picks q) p.transport.tasks
            + total (λ (w : Phase H). count (picks q) (held w)) p.workers
            + count_calls address_of q p.calls
            + count (picks q) p.lost

  sent_of :
      (t : Transport H) (from to body : Bytes) (u now : ℕ)
      → (send t from to body u now).0
        ≡ (if is_ok (send t from to body u now).1 then schedule t to body now else t)
  unfolding send
  sent_of t from to body u now = elim (Bool-cases (has_endpoint t to)) [
    | inr unknown ↦ rw unknown
    | inl known ↦ elim (Bool-cases (should_drop u t.params.drop_rate)) [
      | inl drops ↦ rw (known, drops)
      | inr passes ↦ rw (known, passes)
    ]
  ]

  -- A transport with the same queue and counters.
  with_transport :
      (p : Pool H) (t : Transport H)
      → t.tasks ≡ p.transport.tasks
      → t.pending_count ≡ p.transport.pending_count
      → t.inflight_count ≡ p.transport.inflight_count
      → Endpoints address_of t
      → IsTracked p
      → IsTracked (record p { transport = t })
  with_transport p t same_tasks same_pending same_inflight served s = record {
    counts = rw (same_tasks, same_pending, same_inflight) s.counts;
    served = served;
    addressed = s.addressed;
    kept = λ q. rw same_tasks (s.kept q);
  }

  with_schedule :
      (p : Pool H) (to body : Bytes) (now : ℕ)
      → IsTracked p
      → IsTracked (record p {
        transport = schedule p.transport to body now;
        accepted = task_of p.transport to body now ∷ p.accepted;
      })
  unfolding schedule
  with_schedule p to body now s = record {
    counts = (
      omega
          (arith, s.counts.0, length-push_task (task_of p.transport to body now) p.transport.tasks),
      s.counts.1,
    );
    served = s.served;
    addressed = s.addressed;
    kept = λ q. omega (
      arith,
      s.kept q,
      count-push_task (picks q) (task_of p.transport to body now) p.transport.tasks,
    );
  }

  works-IsTracked :
      (p : Pool H) (i now : ℕ)
      → IsTracked p
      → IsTracked (record p {
        transport = (work_at p.transport p.workers i now).0;
        workers = (work_at p.transport p.workers i now).1;
        calls = calls_at p.transport p.workers i now ++ p.calls;
        lost = missed_at p.transport p.workers i ++ p.lost;
      })
  works-IsTracked p i now s = record {
    counts =
        same-Counts (work_at p.transport p.workers i now).0
          (work_at-Counts p.transport p.workers i now 0 0
            (same-Counts p.transport s.counts (omega arith) (omega arith)))
          (omega arith) (omega arith);
    served = λ a h e.
        s.served a h (ap (lookup a) (sym (work_at-endpoints p.transport p.workers i now)) ∙ e);
    addressed = work_at-IsAddressed address_of p.transport p.workers i now s.served s.addressed;
    kept = λ q. omega (
      arith,
      s.kept q,
      work_at-kept address_of q p.transport p.workers i now s.addressed,
      count_calls-append address_of q (calls_at p.transport p.workers i now) p.calls,
      count-append (picks q) (missed_at p.transport p.workers i) p.lost,
    );
  }

  insert_served :
      (t : Transport H) (d : H)
      → Endpoints address_of t
      → Endpoints address_of (record t { endpoints = insert (address_of d) d t.endpoints })
  insert_served t d s a h e =
      ground (
        arith,
        lookup-insert (address_of d) a d t.endpoints,
        bytes_eq_iff (address_of d) a,
        s a h,
        e,
      )

  remove_served :
      (t : Transport H) (address : Bytes)
      → Endpoints address_of t
      → Endpoints address_of (record t { endpoints = remove address t.endpoints })
  remove_served t address s a h e = ground (arith, lookup-remove address a t.endpoints, s a h, e)

  Step-IsTracked : {p p' : Pool H} → Step p p' → IsTracked p → IsTracked p'
  unfolding register_endpoint unregister_endpoint set_params stop_running
  Step-IsTracked {p} (works i now) s = works-IsTracked p i now s
  Step-IsTracked {p} (accepts from to body u now took) s =
      rw (sent_of p.transport from to body u now, took) (with_schedule p to body now s)
  Step-IsTracked {p} (refuses from to body u now refused) s =
      rw (sent_of p.transport from to body u now, refused) s
  Step-IsTracked {p} (registers deliver) s =
      elim (Bool-cases (has_endpoint p.transport (address_of deliver))) [
        | inl known ↦ rw known s
        | inr unknown ↦
            rw unknown
              (with_transport p _ refl refl refl (insert_served p.transport deliver s.served) s)
      ]
  Step-IsTracked {p} (unregisters address) s =
      elim (Bool-cases (has_endpoint p.transport address)) [
        | inl known ↦
            rw known
              (with_transport p _ refl refl refl (remove_served p.transport address s.served) s)
        | inr unknown ↦ rw unknown s
      ]
  Step-IsTracked {p} (sets_params params) s = with_transport p _ refl refl refl s.served s
  Step-IsTracked {p} shuts_down s = with_transport p _ refl refl refl s.served s

  pub Reach-IsTracked : {p p' : Pool H} → Reach p p' → IsTracked p → IsTracked p'
  Reach-IsTracked here s = s
  Reach-IsTracked (next r st) s = Step-IsTracked st (Reach-IsTracked r s)

  idle_total : (n : Phase H → ℕ) (size : ℕ) → n at_head ≡ 0 → total n (replicate size at_head) ≡ 0
  idle_total n zero idle = refl
  idle_total n (suc size) idle = omega (arith, idle, idle_total n size idle)

  idle-IsAddressed : (size : ℕ) → All (IsAddressed address_of) (replicate size at_head)
  idle-IsAddressed zero = tt
  idle-IsAddressed (suc size) = (tt, idle-IsAddressed size)

  pub new_pool-IsTracked :
      (params : NetworkParams) (has_logger : Bool) (size : ℕ)
      → IsTracked (new_pool params has_logger size)
  unfolding new_transport lookup
  new_pool-IsTracked params has_logger size = record {
    counts =
        (omega (arith, idle_total n_popped size refl), omega (arith, idle_total n_busy size refl));
    served = λ a h e. cc;
    addressed = idle-IsAddressed size;
    kept = λ q. omega (arith, idle_total (λ (w : Phase H). count (picks q) (held w)) size refl);
  }
