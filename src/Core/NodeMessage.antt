-- ===== src/Core/NodeMessage.antt =====
-- The messages between nodes and relayers of src/core/Node.h, and their text form in Node.cpp and
-- Relayer.cpp: `fromAddress|kind|bytes`, with nothing escaped.
pub mod RoundTrip
use mathlib.Core.Option
use interchain_communication.Prelude.{
  ℕ, zero, suc, ◌+◌, ◌-◌, ◌<◌, ◌≡◌, refl, [], ◌∷◌, ◌++◌, Option, none, some, Bytes, codes, ◌==◌,
  if◌then◌else◌, take, drop, length, ℤ, pos, negsuc,
}
use interchain_communication.Util.Error.{
  Exception, malformed_message, bad_number, Outcome, returns, throws,
}
use interchain_communication.Util.Decimal.{print_int, stoi}
use interchain_communication.Ibc.Types.{pipe}

-- `other` is a value of the underlying `int` with no name.
pub data NodeMessageKind : Type 0 where
  block transaction ibc unknown : NodeMessageKind
  other : ℤ → NodeMessageKind

unfoldable pub of_int : ℤ → NodeMessageKind
of_int (pos zero) = block
of_int (pos (suc zero)) = transaction
of_int (pos (suc (suc zero))) = ibc
of_int (pos (suc (suc (suc zero)))) = unknown
of_int (pos (suc (suc (suc (suc n))))) = other (pos (suc (suc (suc (suc n)))))
of_int (negsuc n) = other (negsuc n)

unfoldable pub to_int : NodeMessageKind → ℤ
to_int block = pos 0
to_int transaction = pos 1
to_int ibc = pos 2
to_int unknown = pos 3
to_int (other z) = z

pub record NodeMessage : Type 0 where
  pub from_address : Bytes
  pub kind : NodeMessageKind
  pub bytes : Bytes

-- The position of the first `c`, counted from the front.
unfoldable pub index_of : ℕ → Bytes → Option ℕ
index_of c [] = none
index_of c (x ∷ s) = let more = Option.map suc (index_of c s) in if x == c then some 0 else more

-- `s.find(c, from)`; `none` is `npos`.
unfoldable pub find : Bytes → ℕ → ℕ → Option ℕ
unfolding index_of
find s c from = Option.map (λ i. from + i) (index_of c (drop from s))

-- `p + 1`, where `npos + 1` wraps to 0.
abbrev pub after : Option ℕ → ℕ
after none = 0
after (some p) = p + 1

-- `s.substr(from, len)` and `s.substr(from)`, for `from` within the text.
abbrev pub substr : Bytes → ℕ → ℕ → Bytes
substr s from len = take len (drop from s)

unfoldable pub serialize_node_message : NodeMessage → Bytes
serialize_node_message m =
    m.from_address ++ (pipe ∷ (print_int (to_int m.kind) ++ (pipe ∷ m.bytes)))

-- The message whose kind `stoi` has read, or the exception that it threw.
unfoldable pub with_kind : Option ℤ → Bytes → Bytes → Outcome NodeMessage
with_kind none from_address body = throws bad_number
with_kind (some k) from_address body =
    returns (record { from_address = from_address; kind = of_int k; bytes = body })

unfoldable pub cut_message : Bytes → Option ℕ → Option ℕ → Outcome NodeMessage
cut_message s none p2 = throws malformed_message
cut_message s (some p1) none = throws malformed_message
cut_message s (some p1) (some p2) =
    with_kind (stoi (substr s (p1 + 1) (p2 - p1 - 1))) (substr s 0 p1) (drop (p2 + 1) s)

unfoldable pub deserialize_node_message : Bytes → Outcome NodeMessage
deserialize_node_message s =
    let p1 = find s pipe 0 in let p2 = find s pipe (after p1) in cut_message s p1 p2

reads_a_message :
    deserialize_node_message (codes "relayer-0|2|0|a")
    ≡ returns (record { from_address = codes "relayer-0"; kind = ibc; bytes = codes "0|a" })
unfolding deserialize_node_message cut_message with_kind find index_of stoi of_int
reads_a_message = refl
