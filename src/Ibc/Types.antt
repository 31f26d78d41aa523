-- ===== src/Ibc/Types.antt =====
-- src/ibc/IBCTypes.h and IBCTypes.cpp: packets, and their text form. Strings are lists of bytes; a
-- port and a channel id are their only field.
pub mod Escape
pub mod RoundTrip
use interchain_communication.Prelude.{
  ℕ, zero, suc, ◌+◌, ◌<◌, ◌≡◌, refl, Bool, true, false, List, [], ◌∷◌, ◌++◌, Option, none, some,
  Bytes, codes, ◌==◌, if◌then◌else◌, length, ℤ, pos, negsuc, u64_mod,
}
use interchain_communication.Util.Error.{Exception, bad_parts, bad_packet, Outcome, returns, throws}
use interchain_communication.Util.Decimal.{to_string, print_int, stoi, stoull}
use interchain_communication.Util.Decimal.RoundTrip.{IsInt32}

-- An `enum class` holds any `int`; `other` is a value with no name.
pub data IbcPacketType : Type 0 where
  data_packet ack : IbcPacketType
  other : ℤ → IbcPacketType

-- `static_cast<IBCPacketType>` of an `int`, and `static_cast<int>` of the type.
unfoldable pub of_int : ℤ → IbcPacketType
of_int (pos zero) = data_packet
of_int (pos (suc zero)) = ack
of_int (pos (suc (suc n))) = other (pos (suc (suc n)))
of_int (negsuc n) = other (negsuc n)

unfoldable pub to_int : IbcPacketType → ℤ
to_int data_packet = pos 0
to_int ack = pos 1
to_int (other z) = z

pub record IbcPacket : Type 0 where
  pub type : IbcPacketType
  pub src_chain : Bytes
  pub dst_chain : Bytes
  pub src_port : Bytes
  pub src_channel : Bytes
  pub dst_port : Bytes
  pub dst_channel : Bytes
  pub sequence : ℕ
  pub payload : Bytes

abbrev pub pipe : ℕ
pipe = b'|'

abbrev pub backslash : ℕ
backslash = b'\\'

-- What one round of `escape` appends.
hide : ℕ → Bytes
hide c =
    if c == pipe
    then backslash ∷ pipe ∷ []
    else if c == backslash
    then backslash ∷ backslash ∷ []
    else c ∷ []

pub escape : Bytes → Bytes
unfolding hide
escape [] = []
escape (c ∷ s) = hide c ++ escape s

-- The loop of `unescape`, with its flag `escaped`.
unescape_from : Bool → Bytes → Bytes
unescape_from escaped [] = []
unescape_from true (c ∷ s) = c ∷ unescape_from false s
unescape_from false (c ∷ s) =
    let wait = unescape_from true s in
    let copy = c ∷ unescape_from false s in if c == backslash then wait else copy

pub unescape : Bytes → Bytes
unfolding unescape_from
unescape = unescape_from false

-- The loop of `split`, with `current` and `escaped`; what it has pushed stands in front.
split_from : ℕ → Bytes → Bytes → Bool → List Bytes
split_from delimiter [] current escaped = current ∷ []
split_from delimiter (c ∷ s) current true = split_from delimiter s (current ++ c ∷ []) false
split_from delimiter (c ∷ s) current false =
    let escape_next = split_from delimiter s (current ++ c ∷ []) true in
    let next_part = current ∷ split_from delimiter s [] false in
    let copy = split_from delimiter s (current ++ c ∷ []) false in
    if c == backslash then escape_next else if c == delimiter then next_part else copy

pub split : Bytes → ℕ → List Bytes
unfolding split_from
split s delimiter = split_from delimiter s [] false

unfoldable pub serialize : IbcPacket → Bytes
serialize p =
    print_int (to_int p.type)
    ++ (pipe
        ∷ (escape p.src_chain
            ++ (pipe
                ∷ (escape p.dst_chain
                    ++ (pipe
                        ∷ (escape p.src_port
                            ++ (pipe
                                ∷ (escape p.src_channel
                                    ++ (pipe
                                        ∷ (escape p.dst_port
                                            ++ (pipe
                                                ∷ (escape p.dst_channel
                                                    ++ (pipe
                                                        ∷ (to_string p.sequence
                                                            ++ (pipe
                                                            ∷ escape p.payload)))))))))))))))

-- The `catch` turns what `stoi` and `stoull` throw into one error.
build : Option ℤ → Option ℕ → IbcPacket → Outcome IbcPacket
build none seq p = throws bad_packet
build (some t) none p = throws bad_packet
build (some t) (some seq) p = returns (record p { type = of_int t; sequence = seq })

parse_parts : List Bytes → Outcome IbcPacket
unfolding build
parse_parts (t ∷ sc ∷ dc ∷ sp ∷ sch ∷ dp ∷ dch ∷ seq ∷ body ∷ []) =
    build (stoi t) (stoull seq) (record {
      type = data_packet;
      src_chain = unescape sc;
      dst_chain = unescape dc;
      src_port = unescape sp;
      src_channel = unescape sch;
      dst_port = unescape dp;
      dst_channel = unescape dch;
      sequence = 0;
      payload = unescape body;
    })
parse_parts parts = throws (bad_parts (length parts))

unfoldable pub deserialize : Bytes → Outcome IbcPacket
unfolding parse_parts split unescape
deserialize s = parse_parts (split s pipe)

-- What a packet must satisfy to be read back: its type is in canonical form and fits an `int`, and
-- its sequence number fits 64 bits.
pub record IsPacket (p : IbcPacket) : Type 0 where
  pub type_canonical : of_int (to_int p.type) ≡ p.type
  pub type_fits : IsInt32 (to_int p.type)
  pub sequence_fits : p.sequence < u64_mod

escapes_pipe : escape (codes "a|b\\") ≡ codes "a\\|b\\\\"
unfolding escape
escapes_pipe = refl

splits_at_plain_pipes : split (codes "a\\|b|c|") pipe ≡ codes "a\\|b" ∷ codes "c" ∷ [] ∷ []
unfolding split
splits_at_plain_pipes = refl

wrong_part_count : deserialize (codes "0|a|b") ≡ throws (bad_parts 3)
unfolding deserialize
wrong_part_count = refl
