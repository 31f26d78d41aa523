-- ===== src/Consensus/Pos.antt =====
-- src/consensus/PoS.h and PoS.cpp.
pub mod Finality
use interchain_communication.Prelude.{
  ℕ, ◌+◌, ◌*◌, ◌/◌, ◌%◌, ◌++◌, u64_mod, Bool, true, false, List, [], ◌∷◌, some, Bytes, codes,
  length, leb, if◌then◌else◌,
}
use interchain_communication.Util.Error.{Status, status, Result, ErrorCode}
use interchain_communication.Core.Transaction.{Transaction}
use interchain_communication.Core.Block.{Block}
use interchain_communication.Core.Effect.{Effect, inc_counter}
use interchain_communication.Consensus.Context.{ConsensusContext, block_id, next_block}
use interchain_communication.Consensus.Votes.{VoteMap, has, add, voters, vote}

pub record Pos : Type 0 where
  pub validators : ℕ
  pub signatures : VoteMap
  pub finalized_blocks : List Bytes

unfoldable pub new_pos : ℕ → Pos
new_pos validators = record { validators = validators; signatures = []; finalized_blocks = [] }

unfoldable pub quorum : Pos → ℕ
quorum e = e.validators * 2 % u64_mod / 3 + 1

-- The signature of one validator, and the finalization that it may complete.
unfoldable pub sign : Pos → Bytes → Bytes → Pos × List Effect
sign e id voter =
    let e' : Pos = record e { signatures = vote e.signatures id voter } in
    if leb (quorum e') (length (voters e'.signatures id))
    then (
      record e' { finalized_blocks = add e'.finalized_blocks id },
      inc_counter "block_finalized_PoS" ∷ [],
    )
    else (e', [])

unfoldable pub propose :
    (Bytes → ℕ)
    → Pos
    → ConsensusContext
    → List Transaction
    → Block
    → ℕ
    → Pos × Result Block × List Effect
propose hasher e ctx txs prev now =
    let b = next_block hasher ctx txs prev now (codes "PoS:proposed:" ++ ctx.node_id) in
    let (e', es) = sign e (block_id b) ctx.node_id in
    (
      e',
      record { status = status ErrorCode.ok ""; value = some b },
      inc_counter "block_proposed_PoS" ∷ es,
    )

unfoldable pub on_remote_block : Pos → Block → Pos × Status × List Effect
on_remote_block e b =
    let (e', es) = sign e (block_id b) (codes "remote") in
    (e', status ErrorCode.ok "", inc_counter "block_received_PoS" ∷ es)

unfoldable pub is_final : Pos → Block → Bool
is_final e b = has e.finalized_blocks (block_id b)
