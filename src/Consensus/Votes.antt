-- ===== src/Consensus/Votes.antt =====
-- `std::set<std::string>`, and the map from block ids to sets of voters that PoS and PBFT keep.
pub mod Laws
use interchain_communication.Prelude.{
  ℕ, ◌+◌, ◌≤◌, ◌≡◌, refl, Bool, true, false, ◌||◌, List, [], ◌∷◌, Option, none, some, Bytes,
  bytes_eq, bytes_eq_iff, Dict, lookup, insert, lookup-insert, length, if◌then◌else◌, arith,
}

-- `count(x) > 0`.
unfoldable pub has : List Bytes → Bytes → Bool
has [] x = false
has (y ∷ ys) x = if bytes_eq y x then true else has ys x

unfoldable pub add : List Bytes → Bytes → List Bytes
add s x = if has s x then s else x ∷ s

abbrev pub VoteMap : Type 0
VoteMap = Dict (List Bytes)

abbrev or_empty : Option (List Bytes) → List Bytes
or_empty none = []
or_empty (some s) = s

-- `votes[id]`, which makes an empty set for a new id.
unfoldable pub voters : VoteMap → Bytes → List Bytes
voters votes id = or_empty (lookup id votes)

-- `votes[id].insert(voter)`.
unfoldable pub vote : VoteMap → Bytes → Bytes → VoteMap
vote votes id voter = insert id (add (voters votes id) voter) votes
