-- ===== src/Consensus/Pbft/Finality.antt =====
-- When PBFT finalizes a block.
use interchain_communication.Prelude.{
  ℕ, ◌+◌, ◌*◌, ◌%◌, ◌≤◌, ◌<◌, ◌≡◌, refl, ap, ◌∙◌, ◌⊎◌, inl, inr, false, List, Bytes, codes, length,
  All, leb, u64_mod, Bool-cases, arith,
}
use interchain_communication.Core.Transaction.{Transaction}
use interchain_communication.Core.Block.{Block}
use interchain_communication.Consensus.Context.{ConsensusContext, block_id}
use interchain_communication.Consensus.Votes.{voters, vote}
use interchain_communication.Consensus.Votes.Laws.{
  Distinct, IsTally, vote-IsTally, no_votes-IsTally, IsExact, vote-IsExact, add-IsExact,
  none-IsExact, two_voters,
}
use interchain_communication.Consensus.Pbft.{
  Pbft, new_pbft, quorum, cast, propose, on_remote_block, is_final,
}

-- The methods of the engine in any order, with proposals by nodes that are `Allowed`.
module _ (hasher : Bytes → ℕ) (Allowed : Bytes → Type 0) where
  pub data Step (e : Pbft) : Pbft → Type 0 where
    proposes :
        (ctx : ConsensusContext) (txs : List Transaction) (prev : Block) (now : ℕ)
        → Allowed ctx.node_id
        → Step e (propose hasher e ctx txs prev now).0
    receives : (b : Block) → Step e (on_remote_block e b).0

  pub data Reach (e : Pbft) : Pbft → Type 0 where
    here : Reach e e
    next : {e' e'' : Pbft} → Reach e e' → Step e' e'' → Reach e e''

  -- Who votes: an allowed node, or the name under which every remote vote is cast.
  abbrev pub Voter : Bytes → Type 0
  Voter v = Allowed v ⊎ (v ≡ codes "remote")

  pub record IsSafe (f : ℕ) (e : Pbft) : Type 0 where
    pub same_f : e.f ≡ f
    pub tally : IsTally Voter e.commit_votes
    pub exact : IsExact (quorum e) e.commit_votes e.finalized_blocks

  cast-IsSafe :
      {f : ℕ} (e : Pbft) (id voter : Bytes)
      → Voter voter
      → IsSafe f e
      → IsSafe f (cast e id voter).0
  unfolding cast quorum
  cast-IsSafe {f} e id voter pv s =
      elim (Bool-cases (leb (quorum e) (length (voters (vote e.commit_votes id voter) id)))) [
        | inl enough ↦ rw enough (record {
          same_f = s.same_f;
          tally = tally;
          exact = add-IsExact (quorum e) e.commit_votes e.finalized_blocks id voter s.exact enough;
        })
        | inr few ↦ rw few (record {
          same_f = s.same_f;
          tally = tally;
          exact = vote-IsExact (quorum e) e.commit_votes e.finalized_blocks id voter s.exact few;
        })
      ]
    where
      tally : IsTally Voter (vote e.commit_votes id voter)
      tally = vote-IsTally e.commit_votes id voter pv s.tally

  Step-IsSafe : {f : ℕ} {e e' : Pbft} → Step e e' → IsSafe f e → IsSafe f e'
  unfolding propose on_remote_block
  Step-IsSafe {e = e} (proposes ctx txs prev now h) s = cast-IsSafe e _ ctx.node_id (inl h) s
  Step-IsSafe {e = e} (receives b) s = cast-IsSafe e _ (codes "remote") (inr refl) s

  Reach-IsSafe : {f : ℕ} {e e' : Pbft} → Reach e e' → IsSafe f e → IsSafe f e'
  Reach-IsSafe here s = s
  Reach-IsSafe (next r st) s = Step-IsSafe st (Reach-IsSafe r s)

  new_pbft-IsSafe : (f : ℕ) → 2 * f + 1 < u64_mod → IsSafe f (new_pbft f)
  unfolding new_pbft quorum
  new_pbft-IsSafe f small = record {
    same_f = refl;
    tally = no_votes-IsTally;
    exact = none-IsExact _ (omega (arith, small));
  }

  -- An engine whose quorum does not overflow has finalized a block exactly when at least 2f + 1 commit
  -- votes for it are there. The voters are pairwise distinct, and each is an allowed proposer or the
  -- one name under which every remote block is voted for.
  pub final_is_a_quorum :
      (f : ℕ) (e : Pbft) (b : Block)
      → 2 * f + 1 < u64_mod
      → Reach (new_pbft f) e
      → (is_final e b ≡ leb (2 * f + 1) (length (voters e.commit_votes (block_id b))))
        × Distinct (voters e.commit_votes (block_id b))
        × All Voter (voters e.commit_votes (block_id b))
  unfolding is_final quorum
  final_is_a_quorum f e b small r =
      let s = Reach-IsSafe r (new_pbft-IsSafe f small) in
      (
        s.exact (block_id b)
            ∙ ap (λ q. leb q (length (voters e.commit_votes (block_id b)))) (quorum_of s.same_f),
        s.tally.distinct (block_id b),
        s.tally.cast_by (block_id b),
      )
    where
      quorum_of : e.f ≡ f → (2 * e.f + 1) % u64_mod ≡ 2 * f + 1
      quorum_of same = omega (arith, same, small)

-- If all proposals that an engine makes are by one node, and it tolerates at least one fault, then no
-- block is ever final, however many remote blocks arrive: all remote votes count as one voter.
pub one_proposer_finalizes_nothing :
    (hasher : Bytes → ℕ) (me : Bytes) (f : ℕ) (e : Pbft) (b : Block)
    → 1 ≤ f
    → 2 * f + 1 < u64_mod
    → Reach hasher (λ v. v ≡ me) (new_pbft f) e
    → is_final e b ≡ false
one_proposer_finalizes_nothing hasher me f e b some_faults small r =
    let (exact, distinct, cast_by) = final_is_a_quorum hasher (λ v. v ≡ me) f e b small r in
    ground (arith, exact, two_voters me (codes "remote") _ distinct cast_by)
