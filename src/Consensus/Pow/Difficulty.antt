-- ===== src/Consensus/Pow/Difficulty.antt =====
-- The hash of a block has sixteen digits, so that no block meets a difficulty above sixteen
-- (src/consensus/PoW.cpp).
use interchain_communication.Prelude.{
  ℕ, zero, suc, ◌+◌, ◌/◌, ◌<◌, ◌≡◌, refl, false, List, [], ◌∷◌, Option, none, some, Bytes, length,
  arith,
}
use interchain_communication.Util.Error.{is_ok}
use interchain_communication.Util.Decimal.{stoull}
use interchain_communication.Core.Transaction.{Transaction}
use interchain_communication.Core.Block.{Block}
use interchain_communication.Consensus.Context.{ConsensusContext, next_block}
use interchain_communication.Consensus.Pow.{
  Pow, max_nonce, hex, has_leading_zeros, compute_block_hash, is_solution, mine, finish, propose,
  check_remote, on_remote_block,
}

length-hex : (width h : ℕ) (out : Bytes) → length (hex width h out) ≡ width + length out
unfolding hex
length-hex zero h out = omega arith
length-hex (suc width) h out = omega (arith, length-hex width (h / 16) (_ ∷ out))

too_few_digits :
    (hash : Bytes) (count : ℕ) → length hash < count → has_leading_zeros hash count ≡ false
unfolding has_leading_zeros
too_few_digits hash zero h = absurd (omega (arith, h))
too_few_digits [] (suc count) h = refl
too_few_digits (c ∷ hash) (suc count) h =
    ground (arith, too_few_digits hash count (omega (arith, h)))

module _ (hasher : Bytes → ℕ) (e : Pow) (hard : 16 < e.difficulty) where
  no_solution : (b : Block) (nonce : ℕ) → is_solution hasher e b nonce ≡ false
  unfolding is_solution compute_block_hash
  no_solution b nonce = too_few_digits _ e.difficulty (omega (arith, hard, length-hex 16 _ []))

  mine_nothing : (b : Block) (rounds nonce : ℕ) → mine hasher e b rounds nonce ≡ none
  unfolding mine
  mine_nothing b zero nonce = refl
  mine_nothing b (suc rounds) nonce = rw (no_solution b nonce) (mine_nothing b rounds (nonce + 1))

  check_nothing :
      (b : Block) (o : Option ℕ)
      → (is_ok (check_remote hasher e b o).1 ≡ false) × ((check_remote hasher e b o).0 ≡ e)
  unfolding check_remote
  check_nothing b none = (refl, refl)
  check_nothing b (some nonce) = rw (no_solution b nonce) (refl, refl)

  -- An engine of a difficulty above sixteen neither makes nor takes a block, whatever the hash
  -- function: every proposal fails and every remote block is refused, and the engine stays as it is.
  pub too_hard_to_mine :
      (ctx : ConsensusContext) (txs : List Transaction) (prev b : Block) (now : ℕ)
      → ((propose hasher e ctx txs prev now).1.value ≡ none)
        × (is_ok (propose hasher e ctx txs prev now).1.status ≡ false)
        × ((propose hasher e ctx txs prev now).0 ≡ e)
        × (is_ok (on_remote_block hasher e b).1 ≡ false)
        × ((on_remote_block hasher e b).0 ≡ e)
  unfolding propose finish on_remote_block
  too_hard_to_mine ctx txs prev b now =
      let (refused, same) = check_nothing b (stoull b.extra) in
      rw (mine_nothing (next_block hasher ctx txs prev now []) (suc max_nonce) 0)
        (refl, refl, refl, refused, same)
