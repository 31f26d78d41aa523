-- ===== src/Ibc/Types/RoundTrip.antt =====
-- Reading back what `serialize` writes.
use interchain_communication.Prelude.{◌≡◌, List, [], ◌∷◌, Bytes}
use interchain_communication.Util.Error.{returns}
use interchain_communication.Util.Decimal.{to_string, print_int}
use interchain_communication.Util.Decimal.RoundTrip.{
  stoull-to_string, stoi-print_int, to_string-IsNumeric, print_int-IsNumeric,
}
use interchain_communication.Ibc.Types.{
  IbcPacket, IsPacket, to_int, escape, split, pipe, serialize, deserialize, parse_parts,
}
use interchain_communication.Ibc.Types.Escape.{
  unescape-escape, split-escape, split-numeric, split-escape_last,
}

abbrev parts : IbcPacket → List Bytes
parts p =
    print_int (to_int p.type)
    ∷ escape p.src_chain
    ∷ escape p.dst_chain
    ∷ escape p.src_port
    ∷ escape p.src_channel
    ∷ escape p.dst_port
    ∷ escape p.dst_channel
    ∷ to_string p.sequence
    ∷ escape p.payload
    ∷ []

split-serialize : (p : IbcPacket) → split (serialize p) pipe ≡ parts p
unfolding serialize
split-serialize p = simp (
  split-numeric _ _ (print_int-IsNumeric (to_int p.type)),
  split-numeric _ _ (to_string-IsNumeric p.sequence),
  split-escape,
  split-escape_last,
)

-- Every packet whose type and sequence fit is read back from its text, whatever bytes its other
-- fields hold, separators and backslashes included.
pub deserialize-serialize : (p : IbcPacket) → IsPacket p → deserialize (serialize p) ≡ returns p
unfolding deserialize parse_parts
deserialize-serialize p v =
    rw
      (
        split-serialize,
        stoi-print_int _ v.type_fits,
        stoull-to_string _ v.sequence_fits,
        v.type_canonical,
      )
      (simp unescape-escape)
