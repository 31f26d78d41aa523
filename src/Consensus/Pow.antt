-- ===== src/Consensus/Pow.antt =====
-- src/consensus/PoW.h and PoW.cpp. `hasher` is `std::hash<std::string>`, a `size_t`.
pub mod Mining
pub mod Difficulty
use interchain_communication.Prelude.{
  ℕ, zero, suc, ◌+◌, ◌-◌, ◌/◌, ◌%◌, Bool, true, false, ◌&&◌, List, [], ◌∷◌, ◌++◌, Option, none,
  some, Bytes, codes, length, ltb, leb, ◌==◌, if◌then◌else◌,
}
use interchain_communication.Util.Error.{Status, status, Result, ErrorCode}
use interchain_communication.Util.Decimal.{to_string, stoull}
use interchain_communication.Core.Transaction.{Transaction}
use interchain_communication.Core.Block.{Block}
use interchain_communication.Core.Effect.{Effect, inc_counter}
use interchain_communication.Consensus.Context.{ConsensusContext, block_id, next_block}
use interchain_communication.Consensus.Votes.{has, add}

pub record Pow : Type 0 where
  pub difficulty : ℕ
  pub mined_blocks : List Bytes

unfoldable pub new_pow : ℕ → Pow
new_pow difficulty = record { difficulty = difficulty; mined_blocks = [] }

-- `chainId:height:prevHash:nonce`.
unfoldable pub pow_block_id : Block → ℕ → Bytes
pow_block_id b nonce = block_id b ++ (b':' ∷ to_string nonce)

abbrev hex_digit : ℕ → ℕ
hex_digit d = if ltb d 10 then b'0' + d else b'a' + (d - 10)

-- `width` hexadecimal digits of `h`, its lowest: a `size_t` has 16, and `setw(16)` with `setfill`
-- prints all of them.
unfoldable pub hex : ℕ → ℕ → Bytes → Bytes
hex zero h out = out
hex (suc width) h out = hex width (h / 16) (hex_digit (h % 16) ∷ out)

-- Whether the text starts with so many zeros.
unfoldable pub has_leading_zeros : Bytes → ℕ → Bool
has_leading_zeros hash zero = true
has_leading_zeros [] (suc count) = false
has_leading_zeros (c ∷ hash) (suc count) = c == b'0' && has_leading_zeros hash count

-- The last nonce that `propose` tries.
abbrev pub max_nonce : ℕ
max_nonce = 1000000

module _ (hasher : Bytes → ℕ) where
  unfoldable pub compute_block_hash : Block → ℕ → Bytes
  unfolding hex
  compute_block_hash b nonce =
      hex 16
        (hasher (
          b.header.chain_id
          ++ (to_string b.header.height
              ++ (b.header.prev_hash ++ (b.header.state_root ++ to_string nonce)))))
        []

  unfoldable pub is_solution : Pow → Block → ℕ → Bool
  unfolding compute_block_hash has_leading_zeros
  is_solution e b nonce = has_leading_zeros (compute_block_hash b nonce) e.difficulty

  -- The search from `nonce` on, over `rounds` nonces at most.
  unfoldable pub mine : Pow → Block → ℕ → ℕ → Option ℕ
  unfolding is_solution
  mine e b zero nonce = none
  mine e b (suc rounds) nonce =
      let rest = mine e b rounds (nonce + 1) in if is_solution e b nonce then some nonce else rest

  unfoldable pub finish : Pow → Block → Option ℕ → Pow × Result Block × List Effect
  finish e b none = (
    e,
    record { status = status ErrorCode.consensus_fault "PoW: nonce search failed"; value = none },
    [],
  )
  finish e b (some nonce) = (
    record e { mined_blocks = add e.mined_blocks (pow_block_id b nonce) },
    record { status = status ErrorCode.ok ""; value = some (record b { extra = to_string nonce }) },
    inc_counter "block_finalized_PoW" ∷ [],
  )

  unfoldable pub propose :
      Pow → ConsensusContext → List Transaction → Block → ℕ → Pow × Result Block × List Effect
  unfolding finish
  propose e ctx txs prev now =
      let b = next_block hasher ctx txs prev now [] in
      let (e', r, es) = finish e b (mine e b (suc max_nonce) 0) in
      (e', r, inc_counter "block_proposed_PoW" ∷ es)

  -- The block with the nonce that its field `extra` holds, if it reads.
  unfoldable pub check_remote : Pow → Block → Option ℕ → Pow × Status × List Effect
  check_remote e b none = (e, status ErrorCode.invalid_state "PoW: invalid nonce in extra", [])
  check_remote e b (some nonce) =
      if is_solution e b nonce
      then (
        record e { mined_blocks = add e.mined_blocks (pow_block_id b nonce) },
        status ErrorCode.ok "",
        inc_counter "block_finalized_PoW" ∷ [],
      )
      else (e, status ErrorCode.consensus_fault "PoW: invalid PoW", [])

  unfoldable pub on_remote_block : Pow → Block → Pow × Status × List Effect
  unfolding check_remote
  on_remote_block e b =
      let (e', s, es) = check_remote e b (stoull b.extra) in
      (e', s, inc_counter "block_received_PoW" ∷ es)

unfoldable pub is_mined : Pow → Block → Option ℕ → Bool
is_mined e b none = false
is_mined e b (some nonce) = has e.mined_blocks (pow_block_id b nonce)

unfoldable pub is_final : Pow → Block → Bool
unfolding is_mined
is_final e b = is_mined e b (stoull b.extra)
