-- ===== src/Util/Decimal.antt =====
-- Decimal texts of the standard library: what `operator<<` and `std::to_string` print for an
-- unsigned number, and what `std::stoull` and `std::stoi` read. `none` is a thrown exception,
-- `std::invalid_argument` or `std::out_of_range`; no caller tells these apart.
pub mod RoundTrip
use interchain_communication.Prelude.{
  ℕ, zero, suc, ◌+◌, ◌-◌, ◌*◌, ◌/◌, ◌%◌, ◌^◌, ◌≡◌, refl, Bool, true, false, ◌&&◌, ◌||◌, [], ◌∷◌,
  Option, none, some, Bytes, codes, ltb, leb, ◌==◌, if◌then◌else◌, ℤ, pos, negsuc, u64_mod,
}

-- The digits of `n` in front of `out`. With fuel above `n` the loop ends by its test.
to_digits : ℕ → ℕ → Bytes → Bytes
to_digits zero n out = out
to_digits (suc f) n out =
    let more = to_digits f (n / 10) ((b'0' + n % 10) ∷ out) in
    if ltb n 10 then (b'0' + n % 10) ∷ out else more

unfoldable pub to_string : ℕ → Bytes
unfolding to_digits
to_string n = to_digits (suc n) n []

abbrev pub is_digit : ℕ → Bool
is_digit c = leb b'0' c && leb c b'9'

abbrev pub is_space : ℕ → Bool
is_space c = c == 32 || (leb 9 c && leb c 13)

-- The magnitude that the leading digits spell, behind `n`.
scan : Bytes → ℕ → ℕ
scan [] n = n
scan (c ∷ s) n = let more = scan s (n * 10 + (c - b'0')) in if is_digit c then more else n

-- No digit at all is `std::invalid_argument`.
magnitude : Bytes → Option ℕ
unfolding scan
magnitude [] = none
magnitude (c ∷ s) = if is_digit c then some (scan (c ∷ s) 0) else none

skip_space : Bytes → Bytes
skip_space [] = []
skip_space (c ∷ s) = let more = skip_space s in if is_space c then more else c ∷ s

abbrev with_sign : Bool → Option ℕ → Option (Bool × ℕ)
with_sign negative none = none
with_sign negative (some n) = some (negative, n)

-- The optional sign, and the magnitude behind it.
signed : Bytes → Option (Bool × ℕ)
signed [] = none
signed (c ∷ s) =
    if c == b'-'
    then with_sign true (magnitude s)
    else if c == b'+'
    then with_sign false (magnitude s)
    else with_sign false (magnitude (c ∷ s))

-- `strtoull` negates a number behind a minus sign in `unsigned long long`.
to_u64 : Option (Bool × ℕ) → Option ℕ
to_u64 none = none
to_u64 (some (negative, n)) =
    if leb u64_mod n then none else if negative then some ((u64_mod - n) % u64_mod) else some n

unfoldable pub stoull : Bytes → Option ℕ
unfolding skip_space signed magnitude to_u64
stoull s = to_u64 (signed (skip_space s))

negate : ℕ → ℤ
negate zero = pos 0
negate (suc n) = negsuc n

-- The result of `strtol`, if it fits an `int` of 32 bits.
to_int32 : Option (Bool × ℕ) → Option ℤ
unfolding negate
to_int32 none = none
to_int32 (some (true, n)) = if ltb (2 ^ 31) n then none else some (negate n)
to_int32 (some (false, n)) = if leb (2 ^ 31) n then none else some (pos n)

unfoldable pub stoi : Bytes → Option ℤ
unfolding skip_space signed magnitude to_int32
stoi s = to_int32 (signed (skip_space s))

-- `operator<<` on an `int`.
unfoldable pub print_int : ℤ → Bytes
unfolding to_string
print_int (pos n) = to_string n
print_int (negsuc n) = b'-' ∷ to_string (suc n)

prints_max : to_string (u64_mod - 1) ≡ codes "18446744073709551615"
unfolding to_string
prints_max = refl

reads_like_strtoull :
    (stoull (codes " +42|x") ≡ some 42)
    × (stoull (codes "-1") ≡ some 18446744073709551615)
    × (stoull (codes "18446744073709551616") ≡ none)
    × (stoull (codes "x1") ≡ none)
unfolding stoull
reads_like_strtoull = (refl, refl, refl, refl)

reads_like_stoi :
    (stoi (codes "-2147483648") ≡ some (negsuc 2147483647))
    × (stoi (codes "2147483648") ≡ none)
    × (stoi (codes "") ≡ none)
unfolding stoi
reads_like_stoi = (refl, refl, refl)
