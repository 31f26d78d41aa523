-- ===== src/Core/Blockchain/Ledger.antt =====
-- The blocks of a chain and their heights (src/core/Blockchain.cpp).
use interchain_communication.Prelude.{
  ℕ, ◌≡◌, ◌≢◌, refl, ap, ◌∙◌, inl, inr, Bool, List, [], ◌∷◌, ◌++◌, Option, none, some, Bytes,
  get_last?, get_last?-concat, ◌==◌, ==_iff, Bool-cases, if◌then◌else◌, incr64,
}
use interchain_communication.Util.Error.{is_ok}
use interchain_communication.Core.Block.{Block}
use interchain_communication.Core.Blockchain.{
  Blockchain, append_block, append_effects, head, height_mismatch, new_blockchain,
}

-- The blocks have the heights `first`, `first + 1`, … of the 64-bit counter.
abbrev pub Heights : ℕ → List Block → Type 0
Heights first [] = Unit
Heights first (b ∷ bs) = (b.header.height ≡ first) × Heights (incr64 first) bs

-- A chain with a genesis block at height 0, and consecutive heights behind it.
pub record IsLedger (bc : Blockchain) : Type 0 where
  pub heights : Heights 0 bc.chain
  pub started : bc.chain ≢ []

abbrev height_of : Option Block → ℕ
height_of none = 0
height_of (some b) = b.header.height

Heights-concat :
    (first : ℕ) (bs : List Block) (b : Block)
    → Heights first bs
    → bs ≢ []
    → b.header.height ≡ incr64 (height_of (get_last? bs))
    → Heights first (bs ++ b ∷ [])
Heights-concat first [] b h ne e = absurd (ne refl)
Heights-concat first (x ∷ []) b h ne e = (h.0, (e ∙ ap incr64 h.0, tt))
Heights-concat first (x ∷ y ∷ bs) b h ne e =
    (h.0, Heights-concat (incr64 first) (y ∷ bs) b h.1 (λ q. cc) e)

last_some : (bs : List Block) → bs ≢ [] → (b : Block) × (get_last? bs ≡ some b)
last_some [] ne = absurd (ne refl)
last_some (x ∷ []) ne = (x, refl)
last_some (x ∷ y ∷ bs) ne = last_some (y ∷ bs) (λ q. cc)

concat-ne-nil : (bs : List Block) (b : Block) → bs ++ b ∷ [] ≢ []
concat-ne-nil [] b = λ q. cc
concat-ne-nil (x ∷ bs) b = λ q. cc

-- `appendBlock` accepts exactly the block at the next height, and then it is the head and its height
-- is published; any other block changes nothing and publishes nothing. Heights stay consecutive.
pub append_block_lem :
    (bc : Blockchain) (b : Block)
    → IsLedger bc
    → (last : Block) × (head bc ≡ some last)
      × (let (bc', s, es) = append_block bc b in
          let fits = b.header.height == incr64 last.header.height in
          (is_ok s ≡ fits)
          × (es ≡ (if fits then append_effects bc b else []))
          × (head bc' ≡ some (if fits then b else last))
          × (bc'.chain ≡ (if fits then bc.chain ++ b ∷ [] else bc.chain))
          × IsLedger bc')
unfolding append_block height_mismatch head
append_block_lem bc b v =
    let (last, e) = last_some bc.chain v.started in
    (
      last,
      e,
      elim (Bool-cases (b.header.height == incr64 last.header.height)) [
        | inl fits ↦
            rw (e, height_mismatch, fits)
              (
                refl,
                refl,
                get_last?-concat bc.chain b,
                refl,
                record {
                  heights =
                      Heights-concat 0 bc.chain b v.heights v.started (rw e ((==_iff _ _).0 fits));
                  started = concat-ne-nil bc.chain b;
                },
              )
        | inr differs ↦ rw (e, height_mismatch, differs) (refl, refl, e, refl, v)
      ],
    )

pub new_blockchain-IsLedger :
    (id : Bytes) (has_logger : Bool) → IsLedger (new_blockchain id has_logger)
unfolding new_blockchain
new_blockchain-IsLedger id has_logger = record { heights = (refl, tt); started = λ q. cc }
