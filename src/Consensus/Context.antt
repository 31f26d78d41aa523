-- ===== src/Consensus/Context.antt =====
-- src/consensus/Consensus.h, and what the three engines share. `std::hash` is not fixed by the
-- language: it is a parameter `hasher`. The mutex of each engine makes each method one step.
use Prim.Native.Nat.{bit_xor}
use interchain_communication.Prelude.{ℕ, List, [], ◌∷◌, ◌++◌, Bytes, incr64}
use interchain_communication.Util.Decimal.{to_string}
use interchain_communication.Core.Transaction.{Transaction}
use interchain_communication.Core.Block.{Block}

pub record ConsensusContext : Type 0 where
  pub chain_id : Bytes
  pub node_id : Bytes
  pub current_height : ℕ

-- `chainId:height:prevHash`.
unfoldable pub block_id : Block → Bytes
block_id b =
    b.header.chain_id ++ (b':' ∷ (to_string b.header.height ++ (b':' ∷ b.header.prev_hash)))

module _ (hasher : Bytes → ℕ) where
  -- The loop of `computeStateRoot`: `h ^= hasher(…)`.
  unfoldable pub xor_hashes : List Transaction → ℕ → ℕ
  xor_hashes [] h = h
  xor_hashes (tx ∷ txs) h = xor_hashes txs (bit_xor h (hasher (tx.from ++ (tx.to ++ tx.payload))))

  unfoldable pub compute_state_root : List Transaction → Bytes
  unfolding xor_hashes
  compute_state_root txs = to_string (xor_hashes txs 0)

  -- The block that `propose` builds on `prev`, but for its field `extra`.
  unfoldable pub next_block : ConsensusContext → List Transaction → Block → ℕ → Bytes → Block
  unfolding compute_state_root
  next_block ctx txs prev now extra = record {
    header = record {
      chain_id = ctx.chain_id;
      height = incr64 prev.header.height;
      prev_hash = prev.header.state_root;
      timestamp = now;
      state_root = compute_state_root txs;
    };
    txs = txs;
    extra = extra;
  }
