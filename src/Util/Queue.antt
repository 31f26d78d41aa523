-- ===== src/Util/Queue.antt =====
-- src/util/ConcurrentQueue.h: a queue between threads. Each method is one step under the queue's
-- mutex; `waitPop` waits on a condition, and its step is the one at which the wait is over.
pub mod Fifo
use interchain_communication.Prelude.{
  ℕ, ◌≡◌, refl, Bool, true, false, ◌||◌, not, List, [], ◌∷◌, ◌++◌, Option, none, some,
  if◌then◌else◌,
}
use interchain_communication.Util.Error.{
  Exception, queue_closed, queue_closed_empty, Outcome, returns, throws,
}

pub record ConcurrentQueue (T : Type 0) : Type 0 where
  pub items : List T
  pub is_closed : Bool

module _ {T : Type 0} where
  unfoldable pub empty_queue : ConcurrentQueue T
  empty_queue = record { items = []; is_closed = false }

  unfoldable pub push : ConcurrentQueue T → T → Outcome (ConcurrentQueue T)
  push q item =
      if q.is_closed
      then throws queue_closed
      else returns (record q { items = q.items ++ item ∷ [] })

  unfoldable pub try_pop : ConcurrentQueue T → ConcurrentQueue T × Option T
  try_pop q = elim q.items [ [] ↦ (q, none) | item ∷ rest ↦ (record q { items = rest }, some item) ]

  -- What the condition of `waitPop` waits for.
  unfoldable pub is_ready : ConcurrentQueue T → Bool
  is_ready q = elim q.items [ [] ↦ q.is_closed | _ ∷ _ ↦ true ]

  -- `waitPop` behind its wait.
  unfoldable pub wait_pop : ConcurrentQueue T → ConcurrentQueue T × Outcome T
  wait_pop q = elim q.items [
    | [] ↦ (q, throws queue_closed_empty)
    | item ∷ rest ↦ (record q { items = rest }, returns item)
  ]

  unfoldable pub close : ConcurrentQueue T → ConcurrentQueue T
  close q = record q { is_closed = true }
