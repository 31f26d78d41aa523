-- ===== src/Consensus/Pow/Mining.antt =====
-- The search for a nonce, and what a mined block shows to another engine.
use interchain_communication.Prelude.{
  ℕ, zero, suc, ◌+◌, ◌≤◌, ◌<◌, ◌≡◌, refl, ap, ◌∙◌, inl, inr, Bool, true, false, List, [], Option,
  none, some, Bytes, bytes_eq_refl, if◌then◌else◌, Bool-cases, arith,
}
use interchain_communication.Util.Error.{is_ok, Result}
use interchain_communication.Util.Decimal.{to_string, stoull}
use interchain_communication.Util.Decimal.RoundTrip.{stoull-to_string}
use interchain_communication.Core.Transaction.{Transaction}
use interchain_communication.Core.Block.{Block}
use interchain_communication.Consensus.Context.{ConsensusContext, next_block, block_id}
use interchain_communication.Consensus.Votes.{has, add}
use interchain_communication.Consensus.Votes.Laws.{has-add}
use interchain_communication.Consensus.Pow.{
  Pow, max_nonce, compute_block_hash, is_solution, mine, finish, propose, check_remote,
  on_remote_block, pow_block_id, is_mined, is_final,
}

-- A search from `from` over `rounds` nonces finds nothing, or finds `k`.
abbrev pub AllFail : (ℕ → Bool) → ℕ → ℕ → Type 0
AllFail solves from to = (n : ℕ) → from ≤ n → n < to → solves n ≡ false

abbrev pub IsLeast : (ℕ → Bool) → ℕ → ℕ → Option ℕ → Type 0
IsLeast solves from rounds none = AllFail solves from (from + rounds)
IsLeast solves from rounds (some k) =
    (solves k ≡ true) × (k < from + rounds) × AllFail solves from k

one_more :
    (solves : ℕ → Bool) (from to : ℕ)
    → solves from ≡ false
    → AllFail solves (from + 1) to
    → AllFail solves from to
one_more solves from to no_luck h n lo hi = ground (arith, no_luck, h n)

step_back :
    (solves : ℕ → Bool) (from rounds : ℕ) (o : Option ℕ)
    → solves from ≡ false
    → IsLeast solves (from + 1) rounds o
    → IsLeast solves from (suc rounds) o
step_back solves from rounds none no_luck h =
    one_more solves from (from + suc rounds) no_luck (λ n lo hi. h n lo (omega (arith, hi)))
step_back solves from rounds (some k) no_luck (luck, hi, below) =
    (luck, omega (arith, hi), one_more solves from k no_luck below)

has_added : (s : List Bytes) (x : Bytes) → has (add s x) x ≡ true
has_added s x = has-add s x x ∙ ap (λ b. if b then true else has s x) (bytes_eq_refl x)

module _ (hasher : Bytes → ℕ) where
  mine-IsLeast :
      (e : Pow) (b : Block) (rounds from : ℕ)
      → IsLeast (is_solution hasher e b) from rounds (mine hasher e b rounds from)
  unfolding mine
  mine-IsLeast e b zero from = λ n lo hi. absurd (omega (arith, lo, hi))
  mine-IsLeast e b (suc rounds) from = elim (Bool-cases (is_solution hasher e b from)) [
    | inl luck ↦ rw luck (luck, omega arith, λ n lo hi. absurd (omega (arith, lo, hi)))
    | inr no_luck ↦ rw no_luck (
        step_back (is_solution hasher e b) from rounds _ no_luck
          (mine-IsLeast e b rounds (from + 1)))
  ]

  -- The nonce of a block does not change what is hashed.
  solution_of_sealed :
      (e e' : Pow) (b : Block) (x : Bytes) (n : ℕ)
      → e'.difficulty ≡ e.difficulty
      → is_solution hasher e' (record b { extra = x }) n ≡ is_solution hasher e b n
  unfolding is_solution compute_block_hash
  solution_of_sealed e e' b x n same = cc

  -- An engine takes the block and holds it final.
  pub record IsAccepted (e : Pow) (b : Block) : Type 0 where
    pub taken : is_ok (on_remote_block hasher e b).1 ≡ true
    pub final : is_final (on_remote_block hasher e b).0 b ≡ true

  accepts :
      (e : Pow) (b : Block) (n : ℕ)
      → stoull b.extra ≡ some n
      → is_solution hasher e b n ≡ true
      → IsAccepted e b
  unfolding on_remote_block check_remote is_final is_mined
  accepts e b n read luck = record {
    taken = rw (read, luck);
    final = rw (read, luck) (has_added e.mined_blocks (pow_block_id b n));
  }

  -- What `propose` returns, for each result of its search; `other` is an engine that gets the block.
  abbrev pub IsProposal : Pow → Pow → Block → Option ℕ → Pow → Result Block → Type 0
  IsProposal e other b none e' r = (e' ≡ e) × (r.value ≡ none) × (is_ok r.status ≡ false)
  IsProposal e other b (some n) e' r =
      (r.value ≡ some (record b { extra = to_string n }))
      × (is_ok r.status ≡ true)
      × (is_final e' (record b { extra = to_string n }) ≡ true)
      × IsAccepted other (record b { extra = to_string n })

  sealed-IsAccepted :
      (e other : Pow) (b : Block) (n : ℕ)
      → n ≤ max_nonce
      → is_solution hasher e b n ≡ true
      → other.difficulty ≡ e.difficulty
      → IsAccepted other (record b { extra = to_string n })
  sealed-IsAccepted e other b n small luck same =
      accepts other (record b { extra = to_string n }) n (stoull-to_string n (omega (arith, small)))
        (solution_of_sealed e other b (to_string n) n same ∙ luck)

  finish-IsProposal :
      (e other : Pow) (b : Block) (o : Option ℕ)
      → other.difficulty ≡ e.difficulty
      → IsLeast (is_solution hasher e b) 0 (suc max_nonce) o
      → IsProposal e other b o (finish hasher e b o).0 (finish hasher e b o).1
  unfolding finish is_final is_mined pow_block_id block_id
  finish-IsProposal e other b none same h = (refl, refl, refl)
  finish-IsProposal e other b (some n) same (luck, hi, below) = (
    refl,
    refl,
    rw (stoull-to_string n (omega (arith, hi))) (has_added e.mined_blocks (pow_block_id b n)),
    sealed-IsAccepted e other b n (omega (arith, hi)) luck same,
  )

  -- `propose` tries the nonces from 0 to 1000000. If none of them solves the block, it fails and the
  -- engine stays as it is. Otherwise it returns the block sealed with the least nonce that solves it,
  -- holds it final, and every engine of the same difficulty accepts it and holds it final.
  pub propose_lem :
      (e other : Pow) (ctx : ConsensusContext) (txs : List Transaction) (prev : Block) (now : ℕ)
      → other.difficulty ≡ e.difficulty
      → let b = next_block hasher ctx txs prev now [] in
        (o : Option ℕ) × IsLeast (is_solution hasher e b) 0 (suc max_nonce) o
        × IsProposal e other b o
            (propose hasher e ctx txs prev now).0
            (propose hasher e ctx txs prev now).1
  unfolding propose
  propose_lem e other ctx txs prev now same =
      let b = next_block hasher ctx txs prev now [] in
      let found = mine-IsLeast e b (suc max_nonce) 0 in
      (mine hasher e b (suc max_nonce) 0, found, finish-IsProposal e other b _ same found)
