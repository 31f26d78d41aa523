-- ===== src/Net/Transport/Deliveries.antt =====
-- Where a message is while the workers of src/net/Transport.cpp run: the endpoint's function that a
-- worker calls is the one of the message's address.
use interchain_communication.Prelude.{
  ℕ, zero, suc, ◌+◌, ◌≡◌, refl, ap, Bool, true, false, List, [], ◌∷◌, ◌++◌, Option, none, some,
  Bytes, lookup, if◌then◌else◌, if_keeps, All, arith,
}
use interchain_communication.Net.Transport.Order.{Taken, waits, ends, turns, takes, take_task-Taken}
use interchain_communication.Net.Transport.{
  DeliveryTask, Transport, Phase, Calls, at_head, waiting, popped, counted, delivering, delivered,
  ended, work, has_endpoint, deliver_to,
}
use interchain_communication.Net.Transport.Workers.{
  count, held, total, work_at, calls_at, missed, missed_at,
}

-- Whether `q` picks a message by its address and its bytes.
abbrev pub picks : (Bytes → Bytes → Bool) → DeliveryTask → Bool
picks q task = q task.to task.bytes

has_none :
    {H : Type 0} (t : Transport H) (a : Bytes)
    → lookup a t.endpoints ≡ none
    → has_endpoint t a ≡ false
unfolding has_endpoint
has_none t a e = rw (has_endpoint, e)

has_some :
    {H : Type 0} (t : Transport H) (a : Bytes) (h : H)
    → lookup a t.endpoints ≡ some h
    → has_endpoint t a ≡ true
unfolding has_endpoint
has_some t a h e = rw (has_endpoint, e)

-- The workers change no endpoint.
Taken-endpoints :
    {H : Type 0} (t : Transport H) (now : ℕ) (r : Transport H × Phase H)
    → Taken t now r
    → r.0.endpoints ≡ t.endpoints
Taken-endpoints t now _ waits = refl
Taken-endpoints t now _ ends = refl
Taken-endpoints t now _ turns = refl
Taken-endpoints t now _ (takes task rest same due) = refl

work-endpoints :
    {H : Type 0} (t : Transport H) (p : Phase H) (now : ℕ)
    → (work t p now).0.endpoints ≡ t.endpoints
unfolding work
work-endpoints t at_head now = refl
work-endpoints t waiting now = Taken-endpoints t now _ (take_task-Taken t now)
work-endpoints t (popped task) now = refl
work-endpoints t (counted task) now = refl
work-endpoints t (delivering d task) now = refl
work-endpoints t delivered now = refl
work-endpoints t ended now = refl

pub work_at-endpoints :
    {H : Type 0} (t : Transport H) (ps : List (Phase H)) (i now : ℕ)
    → (work_at t ps i now).0.endpoints ≡ t.endpoints
unfolding work_at
work_at-endpoints t [] i now = refl
work_at-endpoints t (p ∷ ps) zero now = work-endpoints t p now
work_at-endpoints t (p ∷ ps) (suc i) now = work_at-endpoints t ps i now

-- `address_of` is the address that each delivery function serves.
module _ {H : Type 0} (address_of : H → Bytes) where
  abbrev pub Endpoints : Transport H → Type 0
  Endpoints t = (a : Bytes) (h : H) → lookup a t.endpoints ≡ some h → address_of h ≡ a

  abbrev pub IsAddressed : Phase H → Type 0
  IsAddressed (delivering (some h) task) = address_of h ≡ task.to
  IsAddressed _ = Unit

  -- A function that a worker has looked up is that of the message's address.
  found-IsAddressed :
      (t : Transport H) (task : DeliveryTask) (o : Option H)
      → Endpoints t
      → lookup task.to t.endpoints ≡ o
      → IsAddressed (delivering o task)
  found-IsAddressed t task none h e = tt
  found-IsAddressed t task (some d) h e = h task.to d e

  Taken-IsAddressed :
      (t : Transport H) (now : ℕ) (r : Transport H × Phase H) → Taken t now r → IsAddressed r.1
  Taken-IsAddressed t now _ waits = tt
  Taken-IsAddressed t now _ ends = tt
  Taken-IsAddressed t now _ turns = tt
  Taken-IsAddressed t now _ (takes task rest same due) = tt

  work-IsAddressed :
      (t : Transport H) (p : Phase H) (now : ℕ) → Endpoints t → IsAddressed (work t p now).1
  unfolding work
  work-IsAddressed t at_head now h = if_keeps IsAddressed t.running waiting ended tt tt
  work-IsAddressed t waiting now h = Taken-IsAddressed t now _ (take_task-Taken t now)
  work-IsAddressed t (popped task) now h = tt
  work-IsAddressed t (counted task) now h = found-IsAddressed t task _ h refl
  work-IsAddressed t (delivering d task) now h = tt
  work-IsAddressed t delivered now h = tt
  work-IsAddressed t ended now h = tt

  pub work_at-IsAddressed :
      (t : Transport H) (ps : List (Phase H)) (i now : ℕ)
      → Endpoints t
      → All IsAddressed ps
      → All IsAddressed (work_at t ps i now).1
  unfolding work_at
  work_at-IsAddressed t [] i now e h = tt
  work_at-IsAddressed t (p ∷ ps) zero now e (hp, h) = (work-IsAddressed t p now e, h)
  work_at-IsAddressed t (p ∷ ps) (suc i) now e (hp, h) = (hp, work_at-IsAddressed t ps i now e h)

module _ {H : Type 0} (address_of : H → Bytes) (q : Bytes → Bytes → Bool) where
  -- How many of the calls `q` picks.
  abbrev pub count_calls : Calls H → ℕ
  count_calls [] = 0
  count_calls ((h, bytes) ∷ calls) = (if q (address_of h) bytes then 1 else 0) + count_calls calls

  pub count_calls-append : (a b : Calls H) → count_calls (a ++ b) ≡ count_calls a + count_calls b
  count_calls-append [] b = omega arith
  count_calls-append ((h, bytes) ∷ a) b = omega (arith, count_calls-append a b)

  Taken-kept :
      (t : Transport H) (now : ℕ) (r : Transport H × Phase H)
      → Taken t now r
      → count (picks q) r.0.tasks + count (picks q) (held r.1) ≡ count (picks q) t.tasks
  Taken-kept t now _ waits = omega arith
  Taken-kept t now _ ends = omega arith
  Taken-kept t now _ turns = omega arith
  Taken-kept t now _ (takes task rest same due) = omega (arith, ap (count (picks q)) same)

  looked_up :
      (t : Transport H) (task : DeliveryTask) (o : Option H)
      → lookup task.to t.endpoints ≡ o
      → count (picks q) (held (delivering o task)) + count (picks q) (missed t (counted task))
        ≡ count (picks q) (task ∷ [])
  looked_up t task none e =
      omega (arith, ap (λ b. count (picks q) (if b then [] else task ∷ [])) (has_none t task.to e))
  looked_up t task (some h) e =
      omega
        (arith, ap (λ b. count (picks q) (if b then [] else task ∷ [])) (has_some t task.to h e))

  delivered_to :
      (o : Option H) (task : DeliveryTask)
      → IsAddressed address_of (delivering o task)
      → count_calls (deliver_to o task) ≡ count (picks q) (held (delivering o task))
  unfolding deliver_to
  delivered_to none task h = refl
  delivered_to (some d) task h = rw h

  work-kept :
      (t : Transport H) (p : Phase H) (now : ℕ)
      → IsAddressed address_of p
      → count (picks q) (work t p now).0.tasks
          + count (picks q) (held (work t p now).1)
          + count_calls (work t p now).2
          + count (picks q) (missed t p)
        ≡ count (picks q) t.tasks + count (picks q) (held p)
  unfolding work
  work-kept t at_head now h =
      if_keeps
        (λ (p : Phase H).
          count (picks q) t.tasks + count (picks q) (held p) + 0 + 0 ≡ count (picks q) t.tasks + 0)
        t.running waiting ended (omega arith) (omega arith)
  work-kept t waiting now h = omega (arith, Taken-kept t now _ (take_task-Taken t now))
  work-kept t (popped task) now h = omega arith
  work-kept t (counted task) now h =
      omega (arith, looked_up t task (lookup task.to t.endpoints) refl)
  work-kept t (delivering d task) now h = omega (arith, delivered_to d task h)
  work-kept t delivered now h = omega arith
  work-kept t ended now h = omega arith

  pub work_at-kept :
      (t : Transport H) (ps : List (Phase H)) (i now : ℕ)
      → All (IsAddressed address_of) ps
      → count (picks q) (work_at t ps i now).0.tasks
          + total (λ p. count (picks q) (held p)) (work_at t ps i now).1
          + count_calls (calls_at t ps i now)
          + count (picks q) (missed_at t ps i)
        ≡ count (picks q) t.tasks + total (λ p. count (picks q) (held p)) ps
  unfolding work_at calls_at missed_at
  work_at-kept t [] i now h = omega arith
  work_at-kept t (p ∷ ps) zero now (hp, h) = omega (arith, work-kept t p now hp)
  work_at-kept t (p ∷ ps) (suc i) now (hp, h) = omega (arith, work_at-kept t ps i now h)
