-- ===== src/Core/NodeMessage/RoundTrip.antt =====
-- Reading back the text of a message between nodes (src/core/Node.cpp).
use Prim.Native.Nat.add
use interchain_communication.Prelude.{
  ℕ, zero, suc, ◌+◌, ◌-◌, ◌≡◌, refl, sym, ap, ◌∙◌, [], ◌∷◌, ◌++◌, none, some, Bytes, ==_iff, take,
  drop, length, Lacks, All, arith,
}
use interchain_communication.Util.Error.{returns}
use interchain_communication.Util.Decimal.{print_int}
use interchain_communication.Util.Decimal.RoundTrip.{
  IsInt32, IsNumeric, stoi-print_int, print_int-IsNumeric,
}
use interchain_communication.Ibc.Types.{pipe}
use interchain_communication.Core.NodeMessage.{
  NodeMessage, index_of, find, substr, of_int, to_int, serialize_node_message, cut_message,
  with_kind, deserialize_node_message,
}

-- The first separator stands behind a text that holds none.
index_of-append :
    (c : ℕ) (a rest : Bytes) → Lacks c a → index_of c (a ++ (c ∷ rest)) ≡ some (length a)
unfolding index_of
index_of-append c [] rest h = ground arith
index_of-append c (x ∷ a) rest h = ground (arith, index_of-append c a rest h.1, ==_iff x c)

index_of-Lacks : (c : ℕ) (a : Bytes) → Lacks c a → index_of c a ≡ none
unfolding index_of
index_of-Lacks c [] h = refl
index_of-Lacks c (x ∷ a) h = ground (arith, index_of-Lacks c a h.1, ==_iff x c)

drop-length : (a b : Bytes) → drop (length a) (a ++ b) ≡ b
drop-length [] b = refl
drop-length (x ∷ a) b = drop-length a b

take-length : (a b : Bytes) → take (length a) (a ++ b) ≡ a
take-length [] b = refl
take-length (x ∷ a) b = ap (◌∷◌ x) (take-length a b)

drop-nil : (n : ℕ) → drop n (◌++◌ {A = ℕ} [] []) ≡ []
drop-nil zero = refl
drop-nil (suc n) = refl

drop-drop : (n k : ℕ) (s : Bytes) → drop (n + k) s ≡ drop k (drop n s)
drop-drop zero k s = ap (λ m. drop m s) (add.zero k)
drop-drop (suc n) k [] = drop-nil (suc n + k) ∙ sym (drop-nil k)
drop-drop (suc n) k (x ∷ s) = ap (λ m. drop m (x ∷ s)) (add.suc n k) ∙ drop-drop n k s

-- Three facts of a text `s` that has `b` and then a separator from position `n` on: where the
-- separator is found, what stands behind it, and that `b` is what stands before it.
module _ (s : Bytes) (c n : ℕ) (b rest : Bytes) (e : drop n s ≡ b ++ (c ∷ rest)) where
  pub find_part : Lacks c b → find s c n ≡ some (n + length b)
  unfolding find
  find_part h = rw (e, index_of-append c b rest h)

  pub drop_part : drop (n + length b + 1) s ≡ rest
  drop_part =
      drop-drop (n + length b) 1 s
      ∙ ap (drop 1) (drop-drop n (length b) s ∙ ap (drop (length b)) e ∙ drop-length b (c ∷ rest))

  pub take_part : substr s n (length b) ≡ b
  take_part = ap (take (length b)) e ∙ take-length b (c ∷ rest)

-- The same for the first part.
module _ (c : ℕ) (b rest : Bytes) where
  pub find_first : Lacks c b → find (b ++ (c ∷ rest)) c 0 ≡ some (length b)
  find_first h = find_part (b ++ (c ∷ rest)) c 0 b rest refl h ∙ ap some (add.zero (length b))

  pub drop_first : drop (length b + 1) (b ++ (c ∷ rest)) ≡ rest
  drop_first =
      ap (λ t. drop (t + 1) (b ++ (c ∷ rest))) (sym (add.zero (length b)))
      ∙ drop_part (b ++ (c ∷ rest)) c 0 b rest refl

-- The length that the source computes of the positions before and behind a part.
pub part_length : (p b : ℕ) → p + 1 + b - p - 1 ≡ b
part_length p b = omega arith

pub numeric-Lacks : (s : Bytes) → All IsNumeric s → Lacks pipe s
numeric-Lacks [] h = tt
numeric-Lacks (c ∷ s) h = (omega arith, numeric-Lacks s h.1)

-- A node message reads back if its sender's address holds no separator, whatever bytes it carries.
pub deserialize_node_message-serialize :
    (m : NodeMessage)
    → Lacks pipe m.from_address
    → of_int (to_int m.kind) ≡ m.kind
    → IsInt32 (to_int m.kind)
    → deserialize_node_message (serialize_node_message m) ≡ returns m
unfolding deserialize_node_message serialize_node_message cut_message with_kind
deserialize_node_message-serialize m h canonical fits =
    let s = serialize_node_message m in
    let k = print_int (to_int m.kind) in
    let p = length m.from_address in
    let r = k ++ (pipe ∷ m.bytes) in
    let behind = drop_first pipe m.from_address r in
    let second =
      find_part s pipe (p + 1) k m.bytes behind
        (numeric-Lacks k (print_int-IsNumeric (to_int m.kind))) in
    rw (
      find_first pipe m.from_address r h,
      second,
      part_length,
      take_part s pipe 0 m.from_address r refl,
      take_part s pipe (p + 1) k m.bytes behind,
      drop_part s pipe (p + 1) k m.bytes behind,
      stoi-print_int _ fits,
      canonical,
    )
