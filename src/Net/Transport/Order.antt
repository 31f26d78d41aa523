-- ===== src/Net/Transport/Order.antt =====
-- The order of the queue of delayed deliveries (src/net/Transport.cpp).
use interchain_communication.Prelude.{
  ℕ, ◌≤◌, ◌≡◌, refl, subst, List, [], ◌∷◌, Bytes, All, ltb, leb, if_keeps, Bool-cases, inl, inr,
  arith,
}
use interchain_communication.Net.Transport.{
  DeliveryTask, push_task, Transport, Phase, take_from, take_task, at_head, waiting, ended, popped,
  schedule,
}

abbrev IsFirst : DeliveryTask → List DeliveryTask → Type 0
IsFirst t = All (λ x. t.deliver_at ≤ x.deliver_at)

unfoldable pub IsSorted : List DeliveryTask → Type 0
IsSorted [] = Unit
IsSorted (x ∷ xs) = IsFirst x xs × IsSorted xs

IsFirst-of_IsFirst :
    (s t : DeliveryTask) (xs : List DeliveryTask)
    → s.deliver_at ≤ t.deliver_at
    → IsFirst t xs
    → IsFirst s xs
IsFirst-of_IsFirst s t [] le h = tt
IsFirst-of_IsFirst s t (x ∷ xs) le (h, hs) = (omega (arith, le, h), IsFirst-of_IsFirst s t xs le hs)

push_task-IsFirst :
    (s t : DeliveryTask) (xs : List DeliveryTask)
    → s.deliver_at ≤ t.deliver_at
    → IsFirst s xs
    → IsFirst s (push_task t xs)
unfolding push_task
push_task-IsFirst s t [] le h = (le, tt)
push_task-IsFirst s t (x ∷ xs) le (h, hs) =
    if_keeps (IsFirst s) (ltb t.deliver_at x.deliver_at) (t ∷ x ∷ xs) (x ∷ push_task t xs)
      (le, (h, hs)) (h, push_task-IsFirst s t xs le hs)

push_task-IsSorted :
    (t : DeliveryTask) (xs : List DeliveryTask) → IsSorted xs → IsSorted (push_task t xs)
unfolding push_task IsSorted
push_task-IsSorted t [] h = (tt, tt)
push_task-IsSorted t (x ∷ xs) (h, hs) = elim (Bool-cases (ltb t.deliver_at x.deliver_at)) [
  | inl before ↦
      rw before
        ((ground (arith, before), IsFirst-of_IsFirst t x xs (ground (arith, before)) h), (h, hs))
  | inr behind ↦
      rw behind (push_task-IsFirst x t xs (ground (arith, behind)) h, push_task-IsSorted t xs hs)
]

-- What `take_task` comes to.
pub data Taken {H : Type 0} (t : Transport H) (now : ℕ) : Transport H × Phase H → Type 0 where
  waits : Taken t now (t, waiting)
  ends : Taken t now (t, ended)
  turns : Taken t now (t, at_head)
  takes :
      (task : DeliveryTask) (rest : List DeliveryTask)
      → t.tasks ≡ task ∷ rest
      → task.deliver_at ≤ now
      → Taken t now (record t { tasks = rest }, popped task)

module _ {H : Type 0} where
  take_from-Taken :
      (t : Transport H) (tasks : List DeliveryTask) (now : ℕ)
      → t.tasks ≡ tasks
      → Taken t now (take_from t tasks now)
  unfolding take_from
  take_from-Taken t [] now same =
      if_keeps (λ (p : Phase H). Taken t now (t, p)) t.running waiting ended waits ends
  take_from-Taken t (x ∷ xs) now same = elim (Bool-cases (leb x.deliver_at now)) [
    | inl due ↦ rw due (takes x xs same (ground (arith, due)))
    | inr early ↦ rw early turns
  ]

  pub take_task-Taken : (t : Transport H) (now : ℕ) → Taken t now (take_task t now)
  unfolding take_task
  take_task-Taken t now = take_from-Taken t t.tasks now refl

  -- A worker takes a task that is due and before all that are left, or leaves the queue as it is.
  abbrev pub IsNext : List DeliveryTask → ℕ → Transport H × Phase H → Type 0
  IsNext tasks now (t', popped task) =
      (tasks ≡ task ∷ t'.tasks) × (task.deliver_at ≤ now) × IsFirst task t'.tasks
  IsNext tasks now (t', _) = t'.tasks ≡ tasks

  IsNext-of_Taken :
      (t : Transport H) (now : ℕ) (r : Transport H × Phase H)
      → Taken t now r
      → IsSorted t.tasks
      → IsNext t.tasks now r × IsSorted r.0.tasks
  unfolding IsSorted
  IsNext-of_Taken t now _ waits h = (refl, h)
  IsNext-of_Taken t now _ ends h = (refl, h)
  IsNext-of_Taken t now _ turns h = (refl, h)
  IsNext-of_Taken t now _ (takes task rest same due) h =
      let (first, sorted) = subst IsSorted same h in ((same, due, first), sorted)

  -- A queue that is sorted by delivery time stays so when a message is scheduled and when a worker
  -- takes one. What a worker takes is due and no later than every message left; otherwise it leaves the
  -- queue as it is.
  pub queue_in_order :
      (t : Transport H) (to body : Bytes) (now later : ℕ)
      → IsSorted t.tasks
      → IsSorted (schedule t to body now).tasks
        × IsNext t.tasks later (take_task t later)
        × IsSorted (take_task t later).0.tasks
  unfolding schedule
  queue_in_order t to body now later h =
      let (next, sorted) = IsNext-of_Taken t later _ (take_task-Taken t later) h in
      (push_task-IsSorted _ t.tasks h, next, sorted)
