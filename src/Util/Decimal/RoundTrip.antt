-- ===== src/Util/Decimal/RoundTrip.antt =====
-- Reading back with `stoull` and `stoi` what `to_string` prints.
use interchain_communication.Prelude.{
  ℕ, zero, suc, ◌+◌, ◌/◌, ◌%◌, ◌^◌, ◌<◌, ◌≤◌, ◌≡◌, refl, sym, ap, ◌∙◌, true, false, inl, inr, [],
  ◌∷◌, some, arith, Bytes, All, ℤ, pos, negsuc, u64_mod, ltb, Bool-cases,
}
use interchain_communication.Util.Decimal.{
  to_digits, to_string, scan, magnitude, skip_space, with_sign, signed, stoull, stoi, print_int,
}

abbrev pub IsDigit : ℕ → Type 0
IsDigit c = (b'0' ≤ c) × (c ≤ b'9')

scan_last : (n : ℕ) (out : Bytes) → scan ((b'0' + n % 10) ∷ out) (n / 10) ≡ scan out n
unfolding scan
scan_last n out = ground arith

scan_first : (n : ℕ) (out : Bytes) → n < 10 → scan ((b'0' + n % 10) ∷ out) 0 ≡ scan out n
unfolding scan
scan_first n out h = ground arith

-- Reading the digits of `n` comes to `n` before what follows is read.
scan-to_digits : (f n : ℕ) (out : Bytes) → n < f → scan (to_digits f n out) 0 ≡ scan out n
unfolding to_digits
scan-to_digits zero n out h = absurd (omega arith)
scan-to_digits (suc f) n out h = elim (Bool-cases (ltb n 10)) [
  | inl small ↦ rw small (scan_first n out (ground arith))
  | inr large ↦ rw large (scan-to_digits f (n / 10) _ (ground arith) ∙ scan_last n out)
]

to_digits-IsDigit : (f n : ℕ) (out : Bytes) → All IsDigit out → All IsDigit (to_digits f n out)
unfolding to_digits
to_digits-IsDigit zero n out h = h
to_digits-IsDigit (suc f) n out h = elim (Bool-cases (ltb n 10)) [
  | inl small ↦ rw small (omega arith, h)
  | inr large ↦ rw large (to_digits-IsDigit f (n / 10) _ (omega arith, h))
]

to_digits_shape :
    (f n : ℕ) (out : Bytes) → n < f → (c : ℕ) × (s : Bytes) × (to_digits f n out ≡ c ∷ s)
unfolding to_digits
to_digits_shape zero n out h = absurd (omega arith)
to_digits_shape (suc f) n out h = elim (Bool-cases (ltb n 10)) [
  | inl small ↦ (b'0' + n % 10, out, rw small)
  | inr large ↦ rw large (to_digits_shape f (n / 10) _ (ground arith))
]

to_string-IsDigit : (n : ℕ) → All IsDigit (to_string n)
unfolding to_string
to_string-IsDigit n = to_digits-IsDigit (suc n) n [] tt

magnitude_digits : (c : ℕ) (s : Bytes) → IsDigit c → magnitude (c ∷ s) ≡ some (scan (c ∷ s) 0)
unfolding magnitude
magnitude_digits c s h = ground arith

scan-nil : (n : ℕ) → scan [] n ≡ n
unfolding scan
scan-nil n = refl

head-IsDigit : (t : Bytes) {c : ℕ} {s : Bytes} → t ≡ c ∷ s → All IsDigit t → IsDigit c
head-IsDigit [] e h = cc
head-IsDigit (x ∷ t) e h = ground arith

-- What `to_string` prints starts with a digit, and its digits spell the number.
to_string_shape :
    (n : ℕ) → (c : ℕ) × (s : Bytes) × (to_string n ≡ c ∷ s) × IsDigit c × (scan (c ∷ s) 0 ≡ n)
unfolding to_string
to_string_shape n =
    let (c, s, e) = to_digits_shape (suc n) n [] (omega arith) in
    (
      c,
      s,
      e,
      head-IsDigit _ e (to_string-IsDigit n),
      sym (ap (λ t. scan t 0) e) ∙ scan-to_digits (suc n) n [] (omega arith) ∙ scan-nil n,
    )

magnitude-to_string : (n : ℕ) → magnitude (to_string n) ≡ some n
magnitude-to_string n =
    let (c, s, e, digit, value) = to_string_shape n in
    rw e (magnitude_digits c s digit ∙ ap some value)

signed-digit :
    (c : ℕ) (s : Bytes)
    → IsDigit c
    → signed (skip_space (c ∷ s)) ≡ with_sign false (magnitude (c ∷ s))
unfolding signed skip_space
signed-digit c s h = ground arith

signed-to_string : (n : ℕ) → signed (skip_space (to_string n)) ≡ some (false, n)
signed-to_string n =
    let (c, s, e, digit, value) = to_string_shape n in
    rw e
      (signed-digit c s digit ∙ ap (with_sign false) (ap magnitude (sym e) ∙ magnitude-to_string n))

signed-minus : (s : Bytes) → signed (skip_space (b'-' ∷ s)) ≡ with_sign true (magnitude s)
unfolding signed skip_space
signed-minus s = refl

-- Numbers with one print are one.
pub to_string-inj : (n m : ℕ) → to_string n ≡ to_string m → n ≡ m
to_string-inj n m e = cc (magnitude-to_string n, magnitude-to_string m, ap magnitude e)

-- Every `uint64_t` is read back from its print.
pub stoull-to_string : (n : ℕ) → n < u64_mod → stoull (to_string n) ≡ some n
unfolding stoull
stoull-to_string n h = rw signed-to_string (ground arith)

-- The range of an `int` of 32 bits.
abbrev pub IsInt32 : ℤ → Type 0
IsInt32 (pos n) = n < 2 ^ 31
IsInt32 (negsuc n) = n < 2 ^ 31

-- Every `int` is read back from its print.
pub stoi-print_int : (z : ℤ) → IsInt32 z → stoi (print_int z) ≡ some z
unfolding stoi print_int
stoi-print_int (pos n) h = rw signed-to_string (ground arith)
stoi-print_int (negsuc n) h = rw (signed-minus, magnitude-to_string) (ground arith)

-- A print holds no byte above '9', and none below '-'.
abbrev pub IsNumeric : ℕ → Type 0
IsNumeric c = (b'-' ≤ c) × (c ≤ b'9')

IsNumeric-of-IsDigit : (s : Bytes) → All IsDigit s → All IsNumeric s
IsNumeric-of-IsDigit [] h = tt
IsNumeric-of-IsDigit (c ∷ s) h = (omega arith, IsNumeric-of-IsDigit s h.1)

pub to_string-IsNumeric : (n : ℕ) → All IsNumeric (to_string n)
to_string-IsNumeric n = IsNumeric-of-IsDigit _ (to_string-IsDigit n)

pub print_int-IsNumeric : (z : ℤ) → All IsNumeric (print_int z)
unfolding print_int
print_int-IsNumeric (pos n) = to_string-IsNumeric n
print_int-IsNumeric (negsuc n) = (omega arith, to_string-IsNumeric (suc n))
