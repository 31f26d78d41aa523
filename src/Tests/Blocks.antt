-- ===== src/Tests/Blocks.antt =====
-- The consensus engines at concrete inputs. The hash is the length of its text.
use interchain_communication.Prelude.{
  none, ℕ, suc, ◌≡◌, refl, false, [], Option, Bytes, codes, length, leb, ltb, All, ◌+◌, ◌*◌, arith,
}
use interchain_communication.Core.Block.{Block}
use interchain_communication.Consensus.Context.{ConsensusContext, block_id, next_block}
use interchain_communication.Consensus.Votes.{voters}
use interchain_communication.Consensus.Votes.Laws.{Distinct}
use interchain_communication.Consensus.Pbft
use interchain_communication.Consensus.Pbft.{Pbft}
use interchain_communication.Consensus.Pbft.Finality
use interchain_communication.Consensus.Pos
use interchain_communication.Consensus.Pos.{Pos}
use interchain_communication.Consensus.Pos.Finality as PosFinality
use interchain_communication.Consensus.Pow.{
  new_pow, max_nonce, is_solution, propose, on_remote_block,
}
use interchain_communication.Consensus.Pow.Difficulty.{too_hard_to_mine}
use interchain_communication.Util.Error.{is_ok}
use interchain_communication.Consensus.Pow.Mining.{IsLeast, IsProposal, propose_lem}

abbrev hasher : Bytes → ℕ
hasher = length

abbrev me : Bytes
me = codes "node-0"

abbrev Me : Bytes → Type 0
Me v = v ≡ me

abbrev block_at : ℕ → Bytes → Block
block_at n root = record {
  header = record {
    chain_id = codes "chain-A";
    height = n;
    prev_hash = [];
    timestamp = 7;
    state_root = root;
  };
  txs = [];
  extra = [];
}

abbrev context : ConsensusContext
context = record { chain_id = codes "chain-A"; node_id = me; current_height = 0 }

abbrev pbft : Pbft
pbft =
    (Pbft.on_remote_block (Pbft.propose hasher (Pbft.new_pbft 1) context [] (block_at 0 []) 9).0
      (block_at 1 [])).0

pbft-Reach : Finality.Reach hasher Me (Pbft.new_pbft 1) pbft
pbft-Reach =
    Finality.next
      (Finality.next Finality.here (Finality.proposes context [] (block_at 0 []) 9 refl))
      (Finality.receives (block_at 1 []))

final_is_a_quorum_example :
    (Pbft.is_final pbft (block_at 1 [])
      ≡ leb (2 * 1 + 1) (length (voters pbft.commit_votes (block_id (block_at 1 [])))))
    × Distinct (voters pbft.commit_votes (block_id (block_at 1 [])))
    × All (Finality.Voter hasher Me) (voters pbft.commit_votes (block_id (block_at 1 [])))
final_is_a_quorum_example =
    Finality.final_is_a_quorum hasher Me 1 pbft (block_at 1 []) (omega arith) pbft-Reach

one_proposer_finalizes_nothing_example : Pbft.is_final pbft (block_at 1 []) ≡ false
one_proposer_finalizes_nothing_example =
    Finality.one_proposer_finalizes_nothing hasher me 1 pbft (block_at 1 []) (omega arith)
      (omega arith) pbft-Reach

propose_lem_example :
    let b = next_block hasher context [] (block_at 0 []) 9 [] in
    (o : Option ℕ) × IsLeast (is_solution hasher (new_pow 2) b) 0 (suc max_nonce) o
    × IsProposal hasher
        (new_pow 2)
        (new_pow 2)
        b
        o
        (propose hasher (new_pow 2) context [] (block_at 0 []) 9).0
        (propose hasher (new_pow 2) context [] (block_at 0 []) 9).1
propose_lem_example = propose_lem hasher (new_pow 2) (new_pow 2) context [] (block_at 0 []) 9 refl

abbrev pos : Pos
pos =
    (Pos.on_remote_block (Pos.propose hasher (Pos.new_pos 4) context [] (block_at 0 []) 9).0
      (block_at 1 [])).0

pos-Reach : PosFinality.Reach hasher Me (Pos.new_pos 4) pos
pos-Reach =
    PosFinality.next
      (PosFinality.next PosFinality.here (PosFinality.proposes context [] (block_at 0 []) 9 refl))
      (PosFinality.receives (block_at 1 []))

final_is_two_thirds_example :
    (Pos.is_final pos (block_at 1 [])
      ≡ ltb (2 * 4) (3 * length (voters pos.signatures (block_id (block_at 1 [])))))
    × Distinct (voters pos.signatures (block_id (block_at 1 [])))
    × All (PosFinality.Voter hasher Me) (voters pos.signatures (block_id (block_at 1 [])))
final_is_two_thirds_example =
    PosFinality.final_is_two_thirds hasher Me 4 pos (block_at 1 []) (omega arith) pos-Reach

too_hard_to_mine_example :
    let e = new_pow 17 in
    let b : Block = record (block_at 1 []) { extra = codes "42" } in
    ((propose hasher e context [] (block_at 0 []) 9).1.value ≡ none)
    × (is_ok (propose hasher e context [] (block_at 0 []) 9).1.status ≡ false)
    × ((propose hasher e context [] (block_at 0 []) 9).0 ≡ e)
    × (is_ok (on_remote_block hasher e b).1 ≡ false)
    × ((on_remote_block hasher e b).0 ≡ e)
too_hard_to_mine_example =
    too_hard_to_mine hasher (new_pow 17) (unfold new_pow in omega arith) context [] (block_at 0 [])
      (record (block_at 1 []) { extra = codes "42" }) 9
