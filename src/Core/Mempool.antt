-- ===== src/Core/Mempool.antt =====
-- src/core/Mempool.h and Mempool.cpp: pending transactions, oldest first.
use interchain_communication.Prelude.{
  ℕ, ◌+◌, ◌≡◌, ◌∙◌, sym, Bool, true, List, [], ◌∷◌, ◌++◌, append-nil, append_assoc, arith, length,
  length-append, length-take, take, drop, take-append-drop, min, if◌then◌else◌,
}
use interchain_communication.Core.Transaction.{Transaction}

abbrev pub Mempool : Type 0
Mempool = List Transaction

verify : Transaction → Bool
verify tx = true

unfoldable pub add : Mempool → Transaction → Mempool
unfolding verify
add buf tx = if verify tx then buf ++ tx ∷ [] else buf

-- What is left in the pool, and what was drained.
unfoldable pub drain : Mempool → ℕ → Mempool × List Transaction
drain buf max_txs = let n = min max_txs (length buf) in (drop n buf, take n buf)

unfoldable pub size : Mempool → ℕ
size buf = length buf

-- `add` for each transaction of a list.
abbrev pub add_all : Mempool → List Transaction → Mempool
add_all buf [] = buf
add_all buf (tx ∷ txs) = add_all (add buf tx) txs

add_all_lem : (buf : Mempool) (txs : List Transaction) → add_all buf txs ≡ buf ++ txs
unfolding add
add_all_lem buf [] = sym (append-nil buf)
add_all_lem buf (tx ∷ txs) = add_all_lem (buf ++ tx ∷ []) txs ∙ append_assoc buf (tx ∷ []) txs

-- After transactions are added, a drain gives the oldest ones, at most `max_txs`, and leaves the rest:
-- both together are the pool before and the added ones in order.
pub drain-add_all :
    (buf : Mempool) (txs : List Transaction) (max_txs : ℕ)
    → ((drain (add_all buf txs) max_txs).1 ++ (drain (add_all buf txs) max_txs).0 ≡ buf ++ txs)
      × (length (drain (add_all buf txs) max_txs).1 ≡ min max_txs (size buf + length txs))
unfolding drain size
drain-add_all buf txs max_txs = rw (add_all_lem buf txs) (
  take-append-drop (min max_txs (length (buf ++ txs))) (buf ++ txs),
  length-take (min max_txs (length (buf ++ txs))) (buf ++ txs)
      ∙ omega (arith, length-append buf txs),
)
