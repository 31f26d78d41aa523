-- ===== src/Util/Queue/Fifo.antt =====
-- A queue under any calls of its threads (src/util/ConcurrentQueue.h).
use interchain_communication.Prelude.{
  ◌≡◌, refl, sym, ap, subst, ◌∙◌, Bool, true, false, List, [], ◌∷◌, ◌++◌, append_assoc, Option,
  none, some, if◌then◌else◌, Bool-cases, inl, inr,
}
use interchain_communication.Util.Error.{Outcome, returns, throws, queue_closed}
use interchain_communication.Util.Queue.{ConcurrentQueue, push, try_pop, is_ready, wait_pop, close}

pub data Call (T : Type 0) : Type 0 where
  pushes : T → Call T
  tries : Call T
  waits : Call T
  closes : Call T

-- A queue, what its pushes have put in and what its pops have given out.
pub record Trace (T : Type 0) : Type 0 where
  pub queue : ConcurrentQueue T
  pub took : List T
  pub gave : List T

module _ {T : Type 0} where
  abbrev pub begin : ConcurrentQueue T → Trace T
  begin q = record { queue = q; took = q.items; gave = [] }

  abbrev after_push : Trace T → T → Outcome (ConcurrentQueue T) → Trace T
  after_push tr x (returns q) = record tr { queue = q; took = tr.took ++ x ∷ [] }
  after_push tr x (throws e) = tr

  abbrev after_try : Trace T → ConcurrentQueue T → Option T → Trace T
  after_try tr q none = record tr { queue = q }
  after_try tr q (some x) = record tr { queue = q; gave = tr.gave ++ x ∷ [] }

  abbrev after_wait : Trace T → ConcurrentQueue T → Outcome T → Trace T
  after_wait tr q (returns x) = record tr { queue = q; gave = tr.gave ++ x ∷ [] }
  after_wait tr q (throws e) = record tr { queue = q }

  -- A `waitPop` that is not ready blocks, and is as if it were not called yet.
  unfoldable pub call : Trace T → Call T → Trace T
  call tr (pushes x) = after_push tr x (push tr.queue x)
  call tr tries = after_try tr (try_pop tr.queue).0 (try_pop tr.queue).1
  call tr waits =
      if is_ready tr.queue then after_wait tr (wait_pop tr.queue).0 (wait_pop tr.queue).1 else tr
  call tr closes = record tr { queue = close tr.queue }

  unfoldable pub run : Trace T → List (Call T) → Trace T
  run tr [] = tr
  run tr (c ∷ cs) = run (call tr c) cs

  abbrev InOrder : Trace T → Type 0
  InOrder tr = tr.took ≡ tr.gave ++ tr.queue.items

  abbrev trace : List T → Bool → List T → List T → Trace T
  trace items is_closed took gave = record {
    queue = record { items = items; is_closed = is_closed };
    took = took;
    gave = gave;
  }

  pops-InOrder :
      (items : List T) (is_closed : Bool) (took gave : List T)
      → took ≡ gave ++ items
      → InOrder (call (trace items is_closed took gave) tries)
        × InOrder (call (trace items is_closed took gave) waits)
  unfolding call try_pop wait_pop is_ready
  pops-InOrder [] true took gave h = (h, h)
  pops-InOrder [] false took gave h = (h, h)
  pops-InOrder (x ∷ items) is_closed took gave h =
      let moved = h ∙ sym (append_assoc gave (x ∷ []) items) in (moved, moved)

  call-InOrder : (tr : Trace T) (c : Call T) → InOrder tr → InOrder (call tr c)
  unfolding call push close
  call-InOrder tr (pushes x) h = elim (Bool-cases tr.queue.is_closed) [
    | inl shut ↦ rw shut h
    | inr live ↦ rw live (ap (λ t. t ++ x ∷ []) h ∙ append_assoc tr.gave tr.queue.items (x ∷ []))
  ]
  call-InOrder tr tries h = (pops-InOrder tr.queue.items tr.queue.is_closed tr.took tr.gave h).0
  call-InOrder tr waits h = (pops-InOrder tr.queue.items tr.queue.is_closed tr.took tr.gave h).1
  call-InOrder tr closes h = h

  run-InOrder : (tr : Trace T) (cs : List (Call T)) → InOrder tr → InOrder (run tr cs)
  unfolding run
  run-InOrder tr [] h = h
  run-InOrder tr (c ∷ cs) h = run-InOrder (call tr c) cs (call-InOrder tr c h)

  -- Whatever calls are made on a queue, in any order, what was in it and what was pushed since is what
  -- was popped since and what is left, in this order.
  pub first_in_first_out :
      (q : ConcurrentQueue T) (cs : List (Call T))
      → (run (begin q) cs).took ≡ (run (begin q) cs).gave ++ (run (begin q) cs).queue.items
  first_in_first_out q cs = run-InOrder (begin q) cs refl

  -- A closed queue takes nothing more, and no wait for it blocks.
  IsShut : List T → Trace T → Type 0
  IsShut before tr = (tr.queue.is_closed ≡ true) × (tr.took ≡ before)

  pops-IsShut :
      (items : List T) (before took gave : List T)
      → took ≡ before
      → IsShut before (call (trace items true took gave) tries)
        × IsShut before (call (trace items true took gave) waits)
        × (is_ready (record { items = items; is_closed = true }) ≡ true)
  unfolding IsShut call try_pop wait_pop is_ready
  pops-IsShut [] before took gave h = ((refl, h), (refl, h), refl)
  pops-IsShut (x ∷ items) before took gave h = ((refl, h), (refl, h), refl)

  call-IsShut :
      (before : List T) (tr : Trace T) (c : Call T) → IsShut before tr → IsShut before (call tr c)
  unfolding IsShut call push close
  call-IsShut before tr (pushes x) (shut, h) =
      subst (λ b. IsShut before (call (trace tr.queue.items b tr.took tr.gave) (pushes x)))
        (sym shut) (refl, h)
  call-IsShut before tr tries (shut, h) =
      subst (λ b. IsShut before (call (trace tr.queue.items b tr.took tr.gave) tries)) (sym shut)
        (pops-IsShut tr.queue.items before tr.took tr.gave h).0
  call-IsShut before tr waits (shut, h) =
      subst (λ b. IsShut before (call (trace tr.queue.items b tr.took tr.gave) waits)) (sym shut)
        (pops-IsShut tr.queue.items before tr.took tr.gave h).1
  call-IsShut before tr closes (shut, h) = (refl, h)

  run-IsShut :
      (before : List T) (tr : Trace T) (cs : List (Call T))
      → IsShut before tr
      → IsShut before (run tr cs)
  unfolding run
  run-IsShut before tr [] h = h
  run-IsShut before tr (c ∷ cs) h = run-IsShut before (call tr c) cs (call-IsShut before tr c h)

  -- Whatever is called on a queue after `close`, it takes nothing more, no later wait on it blocks, and
  -- a push throws.
  pub closed_for_good :
      (q : ConcurrentQueue T) (cs : List (Call T)) (x : T)
      → ((run (begin (close q)) cs).took ≡ q.items)
        × (is_ready (run (begin (close q)) cs).queue ≡ true)
        × (push (run (begin (close q)) cs).queue x ≡ throws queue_closed)
  unfolding close IsShut push
  closed_for_good q cs x =
      let (shut, took) = run-IsShut q.items (begin (close q)) cs (refl, refl) in
      (
        took,
        subst
            (λ b.
              is_ready (record { items = (run (begin (close q)) cs).queue.items; is_closed = b })
              ≡ true)
            (sym shut) (pops-IsShut _ [] [] [] refl).2,
        rw shut,
      )
