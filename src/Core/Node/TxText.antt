-- ===== src/Core/Node/TxText.antt =====
-- The text of a transaction: what reads back, and what does not.
use interchain_communication.Prelude.{
  ◌+◌, ◌≡◌, refl, ◌∙◌, ◌∷◌, ◌++◌, append_assoc, none, some, Bytes, Lacks, length,
}
use interchain_communication.Util.Error.{returns, throws, bad_number}
use interchain_communication.Util.Decimal.{print_int, stoi}
use interchain_communication.Util.Decimal.RoundTrip.{IsInt32, stoi-print_int, print_int-IsNumeric}
use interchain_communication.Ibc.Types.{pipe}
use interchain_communication.Core.Transaction
use interchain_communication.Core.Transaction.{Transaction}
use interchain_communication.Core.NodeMessage.RoundTrip.{
  numeric-Lacks, find_first, drop_first, find_part, drop_part, take_part, part_length,
}
use interchain_communication.Core.Node.{encode_tx, decode_tx, cut_tx, with_type}

-- How a text of five fields is read whose first four hold no separator.
module _ (a b c d rest : Bytes) (ha : Lacks pipe a) (hb : Lacks pipe b) (hc : Lacks pipe c)
    (hd : Lacks pipe d) where
  decode_fields :
      decode_tx (a ++ (pipe ∷ (b ++ (pipe ∷ (c ++ (pipe ∷ (d ++ (pipe ∷ rest))))))))
      ≡ with_type
          (stoi d)
          (record { from = a; to = b; payload = c; type = Transaction.unknown; tx_id = rest })
  unfolding decode_tx cut_tx
  decode_fields =
      let r4 = d ++ (pipe ∷ rest) in
      let r3 = c ++ (pipe ∷ r4) in
      let r2 = b ++ (pipe ∷ r3) in
      let s = a ++ (pipe ∷ r2) in
      let p1 = length a in
      let p2 = p1 + 1 + length b in
      let p3 = p2 + 1 + length c in
      let e2 = drop_first pipe a r2 in
      let e3 = drop_part s pipe (p1 + 1) b r3 e2 in
      let e4 = drop_part s pipe (p2 + 1) c r4 e3 in
      rw (
        find_first pipe a r2 ha,
        find_part s pipe (p1 + 1) b r3 e2 hb,
        find_part s pipe (p2 + 1) c r4 e3 hc,
        find_part s pipe (p3 + 1) d rest e4 hd,
        part_length p1 (length b),
        part_length p2 (length c),
        part_length p3 (length d),
        take_part s pipe 0 a r2 refl,
        take_part s pipe (p1 + 1) b r3 e2,
        take_part s pipe (p2 + 1) c r4 e3,
        take_part s pipe (p3 + 1) d rest e4,
        drop_part s pipe (p3 + 1) d rest e4,
      )

-- A transaction reads back if its sender, recipient and payload hold no separator; its id may.
pub decode_tx-encode_tx :
    (tx : Transaction)
    → Lacks pipe tx.from
    → Lacks pipe tx.to
    → Lacks pipe tx.payload
    → Transaction.of_int (Transaction.to_int tx.type) ≡ tx.type
    → IsInt32 (Transaction.to_int tx.type)
    → decode_tx (encode_tx tx) ≡ returns (some tx)
unfolding encode_tx with_type
decode_tx-encode_tx tx hf ht hp canonical fits =
    let k = print_int (Transaction.to_int tx.type) in
    decode_fields tx.from tx.to tx.payload k tx.tx_id hf ht hp
      (numeric-Lacks k (print_int-IsNumeric _))
    ∙ rw (stoi-print_int _ fits, canonical)

-- A payload that holds one separator shifts the fields: where the part behind it does not start as a
-- number, reading the transaction throws what `std::stoi` throws.
pub decode_tx_shifted :
    (tx : Transaction) (before behind : Bytes)
    → tx.payload ≡ before ++ (pipe ∷ behind)
    → Lacks pipe tx.from
    → Lacks pipe tx.to
    → Lacks pipe before
    → Lacks pipe behind
    → stoi behind ≡ none
    → decode_tx (encode_tx tx) ≡ throws bad_number
unfolding encode_tx with_type
decode_tx_shifted tx before behind e hf ht hb hh unread =
    rw (e, append_assoc) (decode_fields tx.from tx.to before behind _ hf ht hb hh ∙ rw unread)
