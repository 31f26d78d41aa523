-- ===== src/Util/Json/Reader.antt =====
-- A reader of JSON strings as the JSON grammar has them, on bytes, and what it reads of an escaped text.
-- Behind `\u` it keeps the number that the four digits are; escaped texts have only numbers below 32.
use interchain_communication.Prelude.{
  leb, ◌&&◌, ◌||◌, ℕ, zero, suc, ◌+◌, ◌-◌, ◌*◌, ◌/◌, ◌%◌, ◌≤◌, ◌<◌, ◌≡◌, refl, sym, ap, subst, ◌∙◌,
  true, [], ◌∷◌, ◌++◌, append_assoc, Option, none, some, Bytes, ltb, ◌==◌, ==_iff, if◌then◌else◌,
  if_keeps, Bool-cases, inl, inr, All, All-append, arith,
}
use interchain_communication.Util.Json.{quote, backslash, hex_digit, escape_char, escape_json}

-- The value of a hexadecimal digit, small or capital; other characters are none.
unfoldable hex_value : ℕ → Option ℕ
hex_value c =
    if leb b'0' c && leb c b'9'
    then some (c - b'0')
    else if leb b'a' c && leb c b'f'
    then some (c - b'a' + 10)
    else if leb b'A' c && leb c b'F'
    then some (c - b'A' + 10)
    else none

-- The character that a backslash and a letter other than `u` stand for; there are eight of them.
unfoldable letter_value : ℕ → Option ℕ
letter_value c =
    if c == b'b'
    then some 8
    else if c == b'f'
    then some 12
    else if c == b'n'
    then some 10
    else if c == b'r'
    then some 13
    else if c == b't'
    then some 9
    else if c == quote || c == backslash || c == b'/'
    then some c
    else none

-- What the reader is at: a character, the one behind a backslash, or the last `left + 1` of the four
-- digits behind `\u`, with their value so far.
pub data Mode : Type 0 where
  plain : Mode
  escaped : Mode
  digits : ℕ → ℕ → Mode

abbrev pub put : ℕ → Option (Bytes × Bytes) → Option (Bytes × Bytes)
put c none = none
put c (some (text, rest)) = some (c ∷ text, rest)

abbrev put_letter : Option ℕ → Option (Bytes × Bytes) → Option (Bytes × Bytes)
put_letter none r = none
put_letter (some c) r = put c r

-- The text up to the closing quote, and what stands behind it. A character below 32 is refused, and
-- so are an escape and a digit that are none.
unfoldable pub read : Mode → Bytes → Option (Bytes × Bytes)
unfolding hex_value letter_value
read mode [] = none
read plain (c ∷ s) =
    let escape = read escaped s in
    let more = put c (read plain s) in
    if c == quote
    then some ([], s)
    else if c == backslash
    then escape
    else if ltb c 32
    then none
    else more
read escaped (c ∷ s) =
    let code = read (digits 3 0) s in
    let more = put_letter (letter_value c) (read plain s) in if c == b'u' then code else more
read (digits zero value) (c ∷ s) = elim (hex_value c) [
  | none ↦ none
  | some d ↦ put (value * 16 + d) (read plain s)
]
read (digits (suc left) value) (c ∷ s) = elim (hex_value c) [
  | none ↦ none
  | some d ↦ read (digits left (value * 16 + d)) s
]

hex_value-hex_digit : (d : ℕ) → d < 16 → hex_value (hex_digit d) ≡ some d
unfolding hex_value hex_digit
hex_value-hex_digit d h = ground arith

Reads : Bytes → ℕ → Type 0
Reads rest c = read plain (escape_char c ++ rest) ≡ put c (read plain rest)

Reads-same : (rest : Bytes) (k c : ℕ) → Reads rest k → (c == k) ≡ true → Reads rest c
Reads-same rest k c h same = subst (Reads rest) (sym ((==_iff c k).0 same)) h

reads_digit :
    (left value c d : ℕ) (rest : Bytes)
    → hex_value c ≡ some d
    → read (digits (suc left) value) (c ∷ rest) ≡ read (digits left (value * 16 + d)) rest
unfolding read
reads_digit left value c d rest e = rw (read, e)

reads_last :
    (value c d : ℕ) (rest : Bytes)
    → hex_value c ≡ some d
    → read (digits zero value) (c ∷ rest) ≡ put (value * 16 + d) (read plain rest)
unfolding read
reads_last value c d rest e = rw (read, e)

hex_value-zero : hex_value b'0' ≡ some 0
unfolding hex_value
hex_value-zero = refl

reads_code :
    (rest : Bytes) (c : ℕ)
    → c < 32
    → read (digits 3 0) (b'0' ∷ b'0' ∷ hex_digit (c / 16) ∷ hex_digit (c % 16) ∷ rest)
      ≡ put c (read plain rest)
reads_code rest c h =
    reads_digit 2 0 b'0' 0 _ hex_value-zero
    ∙ reads_digit 1 0 b'0' 0 _ hex_value-zero
    ∙ reads_digit 0 0 (hex_digit (c / 16)) (c / 16) _ (hex_value-hex_digit (c / 16) (omega arith))
    ∙ reads_last (0 * 16 + c / 16) (hex_digit (c % 16)) (c % 16) rest
        (hex_value-hex_digit (c % 16) (omega arith))
    ∙ ap (λ n. put n (read plain rest)) (omega arith)

Reads-char : (rest : Bytes) (c : ℕ) → Reads rest c
unfolding Reads escape_char read
Reads-char rest c = elim (Bool-cases (c == quote)) [
  | inl h ↦ Reads-same rest quote c refl h
  | inr h1 ↦ elim (Bool-cases (c == backslash)) [
    | inl h ↦ Reads-same rest backslash c refl h
    | inr h2 ↦ elim (Bool-cases (c == 8)) [
      | inl h ↦ Reads-same rest 8 c refl h
      | inr h3 ↦ elim (Bool-cases (c == 12)) [
        | inl h ↦ Reads-same rest 12 c refl h
        | inr h4 ↦ elim (Bool-cases (c == 10)) [
          | inl h ↦ Reads-same rest 10 c refl h
          | inr h5 ↦ elim (Bool-cases (c == 13)) [
            | inl h ↦ Reads-same rest 13 c refl h
            | inr h6 ↦ elim (Bool-cases (c == 9)) [
              | inl h ↦ Reads-same rest 9 c refl h
              | inr h7 ↦ elim (Bool-cases (ltb c 32)) [
                | inl low ↦
                    rw (h1, h2, h3, h4, h5, h6, h7, low) (reads_code rest c (ground (arith, low)))
                | inr high ↦ rw (h1, h2, h3, h4, h5, h6, h7, high, h1, h2, high)
              ]
            ]
          ]
        ]
      ]
    ]
  ]
]

-- An escaped text between quotes reads back as the text, whatever bytes it holds, by the grammar of
-- JSON strings on bytes: one that holds no byte below 32 and no escapes but the eight letters and `u`
-- with four hexadecimal digits. The reader stops at the closing quote.
pub read-escape_json :
    (s rest : Bytes) → read plain (escape_json s ++ quote ∷ rest) ≡ some (s, rest)
unfolding escape_json Reads
read-escape_json [] rest = unfold read in refl
read-escape_json (c ∷ s) rest =
    ap (read plain) (append_assoc (escape_char c) (escape_json s) (quote ∷ rest))
    ∙ Reads-char (escape_json s ++ quote ∷ rest) c
    ∙ ap (put c) (read-escape_json s rest)

-- A text of one line.
abbrev pub IsLine : Bytes → Type 0
IsLine = All (λ c. 32 ≤ c)

hex_digit_visible : (d : ℕ) → 32 ≤ hex_digit d
unfolding hex_digit
hex_digit_visible d = ground arith

escape_char-IsLine : (c : ℕ) → IsLine (escape_char c)
unfolding escape_char
escape_char-IsLine c = keeps quote _ _ (visible quote (omega arith)) (
    keeps backslash _ _ (visible backslash (omega arith)) (
      keeps 8 _ _ (visible b'b' (omega arith)) (
        keeps 12 _ _ (visible b'f' (omega arith)) (
          keeps 10 _ _ (visible b'n' (omega arith)) (
            keeps 13 _ _ (visible b'r' (omega arith)) (
              keeps 9 _ _ (visible b't' (omega arith)) (elim (Bool-cases (ltb c 32)) [
                | inl low ↦ rw low (
                  omega arith,
                  (
                    omega arith,
                    (
                      omega arith,
                      (omega arith, (hex_digit_visible (c / 16), (hex_digit_visible (c % 16), tt))),
                    ),
                  ),
                )
                | inr high ↦ rw high (ground (arith, high), tt)
              ])))))))
  where
    keeps : (k : ℕ) (x y : Bytes) → IsLine x → IsLine y → IsLine (if c == k then x else y)
    keeps k x y hx hy = if_keeps IsLine (c == k) x y hx hy

    visible : (n : ℕ) → 32 ≤ n → IsLine (backslash ∷ n ∷ [])
    visible n h = (omega arith, (h, tt))

-- An escaped text is one line.
pub escape_json-IsLine : (s : Bytes) → IsLine (escape_json s)
unfolding escape_json
escape_json-IsLine [] = tt
escape_json-IsLine (c ∷ s) =
    All-append (λ n. 32 ≤ n) (escape_char c) (escape_json s) (escape_char-IsLine c)
      (escape_json-IsLine s)
