-- ===== src/Util/DetailedLogger/Fields.antt =====
-- The fields of a line of src/util/DetailedLogger.cpp hold no control character.
use interchain_communication.Prelude.{
  ℕ, ◌≤◌, ◌≡◌, refl, Bool, true, false, List, [], ◌∷◌, ◌++◌, Bytes, codes, String, ltb,
  if◌then◌else◌, All, All-append, arith,
}
use interchain_communication.Util.Json.{escape_json}
use interchain_communication.Util.Json.Reader.{IsLine, escape_json-IsLine}
use interchain_communication.Util.Decimal.{to_string}
use interchain_communication.Util.Decimal.RoundTrip.{IsNumeric, to_string-IsNumeric}
use interchain_communication.Util.DetailedLogger.{
  text_field, number_field, optional_field, fields, braces,
}

-- Names without control characters.
abbrev pub is_line : Bytes → Bool
is_line [] = true
is_line (c ∷ s) = if ltb c 32 then false else is_line s

pub is_line-IsLine : (s : Bytes) → is_line s ≡ true → IsLine s
is_line-IsLine [] h = tt
is_line-IsLine (c ∷ s) h = (ground (arith, h), is_line-IsLine s (ground (arith, h)))

pub join : (a b : Bytes) → IsLine a → IsLine b → IsLine (a ++ b)
join = All-append (λ c. 32 ≤ c)

pub text_field-IsLine :
    (name : String) (text : Bytes) → is_line (codes name) ≡ true → IsLine (text_field name text)
unfolding text_field
text_field-IsLine name text h = (
  omega arith,
  join (codes name) _ (is_line-IsLine (codes name) h) (
      join (codes "\":\"") _ (is_line-IsLine (codes "\":\"") refl)
        (join (escape_json text) _ (escape_json-IsLine text) (omega arith, tt))),
)

pub number_field-IsLine :
    (name : String) (number : Bytes)
    → is_line (codes name) ≡ true
    → IsLine number
    → IsLine (number_field name number)
unfolding number_field
number_field-IsLine name number h n = (
  omega arith,
  join (codes name) _ (is_line-IsLine (codes name) h)
      (join (codes "\":") _ (is_line-IsLine (codes "\":") refl) n),
)

numeric-IsLine : (s : Bytes) → All IsNumeric s → IsLine s
numeric-IsLine [] h = tt
numeric-IsLine (c ∷ s) h = (omega (arith, h.0.0), numeric-IsLine s h.1)

pub count_field-IsLine :
    (name : String) (n : ℕ) → is_line (codes name) ≡ true → IsLine (number_field name (to_string n))
count_field-IsLine name n h =
    number_field-IsLine name (to_string n) h (numeric-IsLine _ (to_string-IsNumeric n))

pub optional_field-IsLine :
    (name : String) (text : Bytes) → is_line (codes name) ≡ true → IsLine (optional_field name text)
unfolding optional_field
optional_field-IsLine name [] h = tt
optional_field-IsLine name (c ∷ text) h = (omega arith, text_field-IsLine name (c ∷ text) h)

pub fields-IsLine : (xs : List Bytes) → All IsLine xs → IsLine (fields xs)
unfolding fields
fields-IsLine [] h = tt
fields-IsLine (x ∷ []) h = h.0
fields-IsLine (x ∷ y ∷ xs) h = join x _ h.0 (omega arith, fields-IsLine (y ∷ xs) h.1)

pub braces-IsLine : (s : Bytes) → IsLine s → IsLine (braces s)
unfolding braces
braces-IsLine s h = (omega arith, join s _ h (omega arith, tt))
