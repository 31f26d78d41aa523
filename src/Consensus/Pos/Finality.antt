-- ===== src/Consensus/Pos/Finality.antt =====
-- When PoS finalizes a block.
use interchain_communication.Prelude.{
  ℕ, ◌+◌, ◌*◌, ◌%◌, ◌≤◌, ◌<◌, ◌≡◌, refl, ◌∙◌, ◌⊎◌, inl, inr, false, List, Bytes, codes, length, All,
  leb, ltb, ◌/◌, u64_mod, Bool-cases, arith,
}
use interchain_communication.Core.Transaction.{Transaction}
use interchain_communication.Core.Block.{Block}
use interchain_communication.Consensus.Context.{ConsensusContext, block_id}
use interchain_communication.Consensus.Votes.{voters, vote}
use interchain_communication.Consensus.Votes.Laws.{
  Distinct, IsTally, vote-IsTally, no_votes-IsTally, IsExact, vote-IsExact, add-IsExact,
  none-IsExact, two_voters,
}
use interchain_communication.Consensus.Pos.{
  Pos, new_pos, quorum, sign, propose, on_remote_block, is_final,
}

-- The methods of the engine in any order, with proposals by nodes that are `Allowed`.
module _ (hasher : Bytes → ℕ) (Allowed : Bytes → Type 0) where
  pub data Step (e : Pos) : Pos → Type 0 where
    proposes :
        (ctx : ConsensusContext) (txs : List Transaction) (prev : Block) (now : ℕ)
        → Allowed ctx.node_id
        → Step e (propose hasher e ctx txs prev now).0
    receives : (b : Block) → Step e (on_remote_block e b).0

  pub data Reach (e : Pos) : Pos → Type 0 where
    here : Reach e e
    next : {e' e'' : Pos} → Reach e e' → Step e' e'' → Reach e e''

  -- Who votes: an allowed node, or the name under which every remote vote is cast.
  abbrev pub Voter : Bytes → Type 0
  Voter v = Allowed v ⊎ (v ≡ codes "remote")

  pub record IsSafe (n : ℕ) (e : Pos) : Type 0 where
    pub same_validators : e.validators ≡ n
    pub tally : IsTally Voter e.signatures
    pub exact : IsExact (quorum e) e.signatures e.finalized_blocks

  sign-IsSafe :
      {n : ℕ} (e : Pos) (id voter : Bytes) → Voter voter → IsSafe n e → IsSafe n (sign e id voter).0
  unfolding sign quorum
  sign-IsSafe {n} e id voter pv s =
      elim (Bool-cases (leb (quorum e) (length (voters (vote e.signatures id voter) id)))) [
        | inl enough ↦ rw enough (record {
          same_validators = s.same_validators;
          tally = tally;
          exact = add-IsExact (quorum e) e.signatures e.finalized_blocks id voter s.exact enough;
        })
        | inr few ↦ rw few (record {
          same_validators = s.same_validators;
          tally = tally;
          exact = vote-IsExact (quorum e) e.signatures e.finalized_blocks id voter s.exact few;
        })
      ]
    where
      tally : IsTally Voter (vote e.signatures id voter)
      tally = vote-IsTally e.signatures id voter pv s.tally

  Step-IsSafe : {n : ℕ} {e e' : Pos} → Step e e' → IsSafe n e → IsSafe n e'
  unfolding propose on_remote_block
  Step-IsSafe {e = e} (proposes ctx txs prev now h) s = sign-IsSafe e _ ctx.node_id (inl h) s
  Step-IsSafe {e = e} (receives b) s = sign-IsSafe e _ (codes "remote") (inr refl) s

  Reach-IsSafe : {n : ℕ} {e e' : Pos} → Reach e e' → IsSafe n e → IsSafe n e'
  Reach-IsSafe here s = s
  Reach-IsSafe (next r st) s = Step-IsSafe st (Reach-IsSafe r s)

  new_pos-IsSafe : (n : ℕ) → IsSafe n (new_pos n)
  unfolding new_pos quorum
  new_pos-IsSafe n = record {
    same_validators = refl;
    tally = no_votes-IsTally;
    exact = none-IsExact _ (omega arith);
  }

  -- An engine whose validator count does not overflow has finalized a block exactly when more than two
  -- thirds of the validators have signed it. The signers are pairwise distinct, and each is an allowed
  -- proposer or the one name under which every remote block is signed.
  pub final_is_two_thirds :
      (n : ℕ) (e : Pos) (b : Block)
      → 2 * n < u64_mod
      → Reach (new_pos n) e
      → (is_final e b ≡ ltb (2 * n) (3 * length (voters e.signatures (block_id b))))
        × Distinct (voters e.signatures (block_id b))
        × All Voter (voters e.signatures (block_id b))
  unfolding is_final quorum
  final_is_two_thirds n e b small r =
      let s = Reach-IsSafe r (new_pos-IsSafe n) in
      (
        s.exact (block_id b) ∙ as_fraction s.same_validators,
        s.tally.distinct (block_id b),
        s.tally.cast_by (block_id b),
      )
    where
      as_fraction :
          e.validators ≡ n
          → leb (e.validators * 2 % u64_mod / 3 + 1) (length (voters e.signatures (block_id b)))
            ≡ ltb (2 * n) (3 * length (voters e.signatures (block_id b)))
      as_fraction same = ground (arith, same, small)

-- If all proposals that an engine makes are by one node, and there are at least three validators, then
-- no block is ever final, however many remote blocks arrive.
one_validator_finalizes_nothing :
    (hasher : Bytes → ℕ) (me : Bytes) (n : ℕ) (e : Pos) (b : Block)
    → 3 ≤ n
    → 2 * n < u64_mod
    → Reach hasher (λ v. v ≡ me) (new_pos n) e
    → is_final e b ≡ false
one_validator_finalizes_nothing hasher me n e b several small r =
    let (exact, distinct, cast_by) = final_is_two_thirds hasher (λ v. v ≡ me) n e b small r in
    ground (arith, exact, two_voters me (codes "remote") _ distinct cast_by)
