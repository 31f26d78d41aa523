-- ===== src/Consensus/Pbft.antt =====
-- src/consensus/PBFT.h and PBFT.cpp.
pub mod Finality
use interchain_communication.Prelude.{
  ℕ, ◌+◌, ◌*◌, ◌%◌, u64_mod, Bool, true, false, List, [], ◌∷◌, some, Bytes, codes, length, leb,
  if◌then◌else◌,
}
use interchain_communication.Util.Error.{Status, status, Result, ErrorCode}
use interchain_communication.Core.Transaction.{Transaction}
use interchain_communication.Core.Block.{Block}
use interchain_communication.Core.Effect.{Effect, inc_counter}
use interchain_communication.Consensus.Context.{ConsensusContext, block_id, next_block}
use interchain_communication.Consensus.Votes.{VoteMap, has, add, voters, vote}

pub record Pbft : Type 0 where
  pub f : ℕ
  pub prepare_votes : VoteMap
  pub commit_votes : VoteMap
  pub finalized_blocks : List Bytes

unfoldable pub new_pbft : ℕ → Pbft
new_pbft f = record { f = f; prepare_votes = []; commit_votes = []; finalized_blocks = [] }

unfoldable pub quorum : Pbft → ℕ
quorum e = (2 * e.f + 1) % u64_mod

-- Both votes of one voter, and the finalization that they may complete.
unfoldable pub cast : Pbft → Bytes → Bytes → Pbft × List Effect
cast e id voter =
    let e' : Pbft = record e {
      prepare_votes = vote e.prepare_votes id voter;
      commit_votes = vote e.commit_votes id voter;
    } in
    if leb (quorum e') (length (voters e'.commit_votes id))
    then (
      record e' { finalized_blocks = add e'.finalized_blocks id },
      inc_counter "block_finalized_PBFT" ∷ [],
    )
    else (e', [])

unfoldable pub propose :
    (Bytes → ℕ)
    → Pbft
    → ConsensusContext
    → List Transaction
    → Block
    → ℕ
    → Pbft × Result Block × List Effect
propose hasher e ctx txs prev now =
    let b = next_block hasher ctx txs prev now (codes "PBFT:proposed") in
    let (e', es) = cast e (block_id b) ctx.node_id in
    (
      e',
      record { status = status ErrorCode.ok ""; value = some b },
      inc_counter "block_proposed_PBFT" ∷ es,
    )

unfoldable pub on_remote_block : Pbft → Block → Pbft × Status × List Effect
on_remote_block e b =
    let (e', es) = cast e (block_id b) (codes "remote") in
    (e', status ErrorCode.ok "", inc_counter "block_received_PBFT" ∷ es)

unfoldable pub is_final : Pbft → Block → Bool
is_final e b = has e.finalized_blocks (block_id b)
