-- ===== src/Consensus/Votes/Laws.antt =====
-- The votes for a block as a set, and their number against a quorum.
use interchain_communication.Prelude.{
  ℕ, ◌≤◌, ◌≡◌, refl, sym, ap, ◌∙◌, ◌⊎◌, inl, inr, Bool, true, false, List, [], ◌∷◌, some, Bytes,
  bytes_eq, bytes_eq_iff, lookup, lookup-insert, length, All, leb, if◌then◌else◌, if_keeps,
  Bool-cases, arith,
}
use interchain_communication.Consensus.Votes.{has, add, VoteMap, or_empty, voters, vote}

-- No member twice.
abbrev pub Distinct : List Bytes → Type 0
Distinct [] = Unit
Distinct (x ∷ xs) = (has xs x ≡ false) × Distinct xs

add-Distinct : (s : List Bytes) (x : Bytes) → Distinct s → Distinct (add s x)
unfolding add
add-Distinct s x h = elim (Bool-cases (has s x)) [ inl old ↦ rw old h | inr new ↦ rw new (new, h) ]

pub has-add :
    (s : List Bytes) (x y : Bytes) → has (add s x) y ≡ (if bytes_eq x y then true else has s y)
unfolding add has
has-add s x y = elim (Bool-cases (has s x)) [
  | inl old ↦ rw old (has_same s x y old)
  | inr new ↦ rw new
]
  where
    has_same :
        (t : List Bytes) (a b : Bytes)
        → has t a ≡ true
        → has t b ≡ (if bytes_eq a b then true else has t b)
    has_same t a b h = ground (arith, bytes_eq_iff a b)

add-length : (s : List Bytes) (x : Bytes) → length s ≤ length (add s x)
unfolding add
add-length s x = ground arith

add-All : (P : Bytes → Type 0) (s : List Bytes) (x : Bytes) → P x → All P s → All P (add s x)
unfolding add
add-All P s x px h = if_keeps (All P) (has s x) s (x ∷ s) h (px, h)

voters-vote :
    (m : VoteMap) (id voter j : Bytes)
    → voters (vote m id voter) j ≡ (if bytes_eq id j then add (voters m id) voter else voters m j)
unfolding voters vote
voters-vote m id voter j =
    ap or_empty (lookup-insert id j (add (or_empty (lookup id m)) voter) m)
    ∙ push_in (bytes_eq id j)
  where
    push_in :
        (b : Bool)
        → or_empty (if b then some (add (or_empty (lookup id m)) voter) else lookup j m)
          ≡ (if b then add (or_empty (lookup id m)) voter else or_empty (lookup j m))
    push_in true = refl
    push_in false = refl

-- Each block's voters are a set, and all of them satisfy `P`.
pub record IsTally (P : Bytes → Type 0) (m : VoteMap) : Type 0 where
  pub distinct : (id : Bytes) → Distinct (voters m id)
  pub cast_by : (id : Bytes) → All P (voters m id)

pub vote-IsTally :
    {P : Bytes → Type 0} (m : VoteMap) (id voter : Bytes)
    → P voter
    → IsTally P m
    → IsTally P (vote m id voter)
vote-IsTally {P} m id voter pv h = record {
  distinct = λ j.
      rw voters-vote (
        if_keeps Distinct (bytes_eq id j) _ _ (add-Distinct _ voter (h.distinct id))
          (h.distinct j));
  cast_by = λ j.
      rw voters-vote
        (if_keeps (All P) (bytes_eq id j) _ _ (add-All P _ voter pv (h.cast_by id)) (h.cast_by j));
}

pub no_votes-IsTally : {P : Bytes → Type 0} → IsTally P []
unfolding voters lookup
no_votes-IsTally = record { distinct = λ id. tt; cast_by = λ id. tt }

voters_of_other :
    (m : VoteMap) (id voter j : Bytes)
    → bytes_eq id j ≡ false
    → voters (vote m id voter) j ≡ voters m j
voters_of_other m id voter j differs =
    voters-vote m id voter j ∙ ap (λ b. if b then add (voters m id) voter else voters m j) differs

votes_grow :
    (m : VoteMap) (id voter j : Bytes) → length (voters m j) ≤ length (voters (vote m id voter) j)
votes_grow m id voter j =
    ground (
      arith,
      ap length (voters-vote m id voter j),
      bytes_eq_iff id j,
      add-length (voters m id) voter,
    )

-- The finalized blocks are those with a quorum of voters.
abbrev pub IsExact : ℕ → VoteMap → List Bytes → Type 0
IsExact q m finalized = (id : Bytes) → has finalized id ≡ leb q (length (voters m id))

-- The vote that leaves its block short of a quorum.
pub vote-IsExact :
    (q : ℕ) (m : VoteMap) (finalized : List Bytes) (id voter : Bytes)
    → IsExact q m finalized
    → leb q (length (voters (vote m id voter) id)) ≡ false
    → IsExact q (vote m id voter) finalized
vote-IsExact q m finalized id voter h few j = elim (Bool-cases (bytes_eq id j)) [
  | inl same ↦
      rw (← (bytes_eq_iff id j).0 same) (ground (arith, h id, few, votes_grow m id voter id))
  | inr differs ↦ h j ∙ ap (λ s. leb q (length s)) (sym (voters_of_other m id voter j differs))
]

-- The vote that completes one.
pub add-IsExact :
    (q : ℕ) (m : VoteMap) (finalized : List Bytes) (id voter : Bytes)
    → IsExact q m finalized
    → leb q (length (voters (vote m id voter) id)) ≡ true
    → IsExact q (vote m id voter) (add finalized id)
add-IsExact q m finalized id voter h enough j = elim (Bool-cases (bytes_eq id j)) [
  | inl same ↦ has-add finalized id j ∙ rw same (sym (rw (← (bytes_eq_iff id j).0 same) enough))
  | inr differs ↦
      has-add finalized id j
      ∙ rw differs (h j ∙ ap (λ s. leb q (length s)) (sym (voters_of_other m id voter j differs)))
]

pub none-IsExact : (q : ℕ) → 1 ≤ q → IsExact q [] []
unfolding has voters lookup
none-IsExact q some_votes id = ground arith

-- Two names make at most two voters.
pub two_voters :
    (a b : Bytes) (s : List Bytes) → Distinct s → All (λ v. (v ≡ a) ⊎ (v ≡ b)) s → length s ≤ 2
two_voters a b [] d h = omega arith
two_voters a b (x ∷ []) d h = omega arith
two_voters a b (x ∷ y ∷ []) d h = omega arith
two_voters a b (x ∷ y ∷ z ∷ s) d h =
    absurd (unfold has in ground (arith, bytes_eq_iff y x, bytes_eq_iff z x, bytes_eq_iff z y))
