-- ===== src/Net/Transport/Workers.antt =====
-- The transport with its worker threads (src/net/Transport.cpp): its two counters, and the messages
-- that the transport and its workers hold.
use interchain_communication.Prelude.{
  ℕ, zero, suc, ◌+◌, ◌%◌, ◌≡◌, refl, ap, Bool, List, [], ◌∷◌, length, some, if◌then◌else◌, if_keeps,
  u64_mod, arith,
}
use interchain_communication.Net.Transport.Order.{Taken, waits, ends, turns, takes, take_task-Taken}
use interchain_communication.Net.Transport.{
  DeliveryTask, push_task, Transport, Phase, Calls, at_head, waiting, popped, counted, delivering,
  delivered, ended, work, has_endpoint,
}

-- How many tasks `q` picks.
abbrev pub count : (DeliveryTask → Bool) → List DeliveryTask → ℕ
count q [] = 0
count q (x ∷ xs) = (if q x then 1 else 0) + count q xs

pub count-push_task :
    (q : DeliveryTask → Bool) (t : DeliveryTask) (xs : List DeliveryTask)
    → count q (push_task t xs) ≡ (if q t then 1 else 0) + count q xs
unfolding push_task
count-push_task q t [] = refl
count-push_task q t (x ∷ xs) = ground (arith, count-push_task q t xs)

pub length-push_task :
    (t : DeliveryTask) (xs : List DeliveryTask) → length (push_task t xs) ≡ suc (length xs)
unfolding push_task
length-push_task t [] = refl
length-push_task t (x ∷ xs) = ground (arith, length-push_task t xs)

module _ {H : Type 0} where
  -- The worker has popped a task that `pendingCount_` still counts; `inflightCount_` counts it.
  abbrev pub n_popped : Phase H → ℕ
  n_popped (popped task) = 1
  n_popped _ = 0

  abbrev pub n_busy : Phase H → ℕ
  n_busy (counted task) = 1
  n_busy (delivering h task) = 1
  n_busy delivered = 1
  n_busy _ = 0

  -- The task that a worker has popped and is still to deliver.
  abbrev pub held : Phase H → List DeliveryTask
  held (popped task) = task ∷ []
  held (counted task) = task ∷ []
  held (delivering (some h) task) = task ∷ []
  held _ = []

  abbrev pub total : (Phase H → ℕ) → List (Phase H) → ℕ
  total n [] = 0
  total n (p ∷ ps) = n p + total n ps

  -- One block of the `i`-th worker: the transport and the workers behind it. The functions that it
  -- calls are those of `calls_at`.
  unfoldable pub work_at : Transport H → List (Phase H) → ℕ → ℕ → Transport H × List (Phase H)
  work_at t [] i now = (t, [])
  work_at t (p ∷ ps) zero now = ((work t p now).0, (work t p now).1 ∷ ps)
  work_at t (p ∷ ps) (suc i) now = ((work_at t ps i now).0, p ∷ (work_at t ps i now).1)

  -- The delivery functions that this block calls.
  unfoldable pub calls_at : Transport H → List (Phase H) → ℕ → ℕ → Calls H
  calls_at t [] i now = []
  calls_at t (p ∷ ps) zero now = (work t p now).2
  calls_at t (p ∷ ps) (suc i) now = calls_at t ps i now

  -- The task whose endpoint this block is to look up and which has none.
  abbrev pub missed : Transport H → Phase H → List DeliveryTask
  missed t (counted task) = if has_endpoint t task.to then [] else task ∷ []
  missed t _ = []

  unfoldable pub missed_at : Transport H → List (Phase H) → ℕ → List DeliveryTask
  missed_at t [] i = []
  missed_at t (p ∷ ps) zero = missed t p
  missed_at t (p ∷ ps) (suc i) = missed_at t ps i

  -- The counters, with `a` tasks popped and `b` in flight.
  abbrev pub Counts : Transport H → ℕ → ℕ → Type 0
  Counts t a b =
      (t.pending_count ≡ (length t.tasks + a) % u64_mod) × (t.inflight_count ≡ b % u64_mod)

  pub same-Counts :
      (t : Transport H) {a b a' b' : ℕ} → Counts t a b → a ≡ a' → b ≡ b' → Counts t a' b'
  same-Counts t (h, k) same_a same_b = (omega (arith, h, same_a), omega (arith, k, same_b))

  Taken-Counts :
      (t : Transport H) (now a b : ℕ) (r : Transport H × Phase H)
      → Taken t now r
      → Counts t a b
      → Counts r.0 (n_popped r.1 + a) (n_busy r.1 + b)
  Taken-Counts t now a b _ waits h = same-Counts t h (omega arith) (omega arith)
  Taken-Counts t now a b _ ends h = same-Counts t h (omega arith) (omega arith)
  Taken-Counts t now a b _ turns h = same-Counts t h (omega arith) (omega arith)
  Taken-Counts t now a b _ (takes task rest same due) (h, k) =
      (omega (arith, h, ap length same), omega (arith, k))

  work-Counts :
      (t : Transport H) (p : Phase H) (now a b : ℕ)
      → Counts t (n_popped p + a) (n_busy p + b)
      → Counts (work t p now).0 (n_popped (work t p now).1 + a) (n_busy (work t p now).1 + b)
  unfolding work
  work-Counts t at_head now a b h =
      if_keeps (λ (p : Phase H). Counts t (n_popped p + a) (n_busy p + b)) t.running waiting ended h
        h
  work-Counts t waiting now a b h =
      Taken-Counts t now a b _ (take_task-Taken t now) (same-Counts t h (omega arith) (omega arith))
  work-Counts t (popped task) now a b (h, k) = (omega (arith, h), omega (arith, k))
  work-Counts t (counted task) now a b h = h
  work-Counts t (delivering d task) now a b h = h
  work-Counts t delivered now a b (h, k) = (h, omega (arith, k))
  work-Counts t ended now a b h = h

  pub work_at-Counts :
      (t : Transport H) (ps : List (Phase H)) (i now a b : ℕ)
      → Counts t (total n_popped ps + a) (total n_busy ps + b)
      → Counts
          (work_at t ps i now).0
          (total n_popped (work_at t ps i now).1 + a)
          (total n_busy (work_at t ps i now).1 + b)
  unfolding work_at
  work_at-Counts t [] i now a b h = h
  work_at-Counts t (p ∷ ps) zero now a b h =
      same-Counts (work t p now).0
        (work-Counts t p now (total n_popped ps + a) (total n_busy ps + b)
          (same-Counts t h (omega arith) (omega arith)))
        (omega arith) (omega arith)
  work_at-Counts t (p ∷ ps) (suc i) now a b h =
      same-Counts (work_at t ps i now).0
        (work_at-Counts t ps i now (n_popped p + a) (n_busy p + b)
          (same-Counts t h (omega arith) (omega arith)))
        (omega arith) (omega arith)
