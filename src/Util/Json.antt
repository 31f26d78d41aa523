-- ===== src/Util/Json.antt =====
-- `escapeJsonString` of src/util/DetailedLogger.cpp and src/util/Metrics.cpp.
pub mod Reader
use interchain_communication.Prelude.{
  ℕ, ◌+◌, ◌-◌, ◌/◌, ◌%◌, ◌≡◌, refl, [], ◌∷◌, ◌++◌, Bytes, codes, ltb, ◌==◌, if◌then◌else◌,
}

abbrev pub quote : ℕ
quote = b'"'

abbrev pub backslash : ℕ
backslash = b'\\'

-- A digit as `std::hex` prints it.
unfoldable pub hex_digit : ℕ → ℕ
hex_digit d = if ltb d 10 then b'0' + d else b'a' + (d - 10)

-- What the loop appends for one character: `\b`, `\f`, `\n`, `\r` and `\t` are 8, 12, 10, 13 and 9.
unfoldable pub escape_char : ℕ → Bytes
escape_char c =
    if c == quote
    then backslash ∷ quote ∷ []
    else if c == backslash
    then backslash ∷ backslash ∷ []
    else if c == 8
    then backslash ∷ b'b' ∷ []
    else if c == 12
    then backslash ∷ b'f' ∷ []
    else if c == 10
    then backslash ∷ b'n' ∷ []
    else if c == 13
    then backslash ∷ b'r' ∷ []
    else if c == 9
    then backslash ∷ b't' ∷ []
    else if ltb c 32
    then backslash ∷ b'u' ∷ b'0' ∷ b'0' ∷ hex_digit (c / 16) ∷ hex_digit (c % 16) ∷ []
    else c ∷ []

unfoldable pub escape_json : Bytes → Bytes
escape_json [] = []
escape_json (c ∷ s) = escape_char c ++ escape_json s

escapes_a_line_feed : escape_json (codes "a\n\"") ≡ codes "a\\n\\\""
unfolding escape_json escape_char
escapes_a_line_feed = refl
