-- ===== src/Ibc/Types/Escape.antt =====
-- `escape`, `unescape` and `split` of src/ibc/IBCTypes.cpp, taken together.
use interchain_communication.Prelude.{
  ℕ, ◌≡◌, refl, sym, ap, ◌∙◌, false, [], ◌∷◌, ◌++◌, append-nil, append_assoc, arith, Bytes, All,
}
use interchain_communication.Util.Decimal.RoundTrip.{IsNumeric}
use interchain_communication.Ibc.Types.{
  hide, escape, unescape_from, unescape, split_from, split, pipe, backslash,
}

unescape-hide :
    (c : ℕ) (rest : Bytes) → unescape_from false (hide c ++ rest) ≡ c ∷ unescape_from false rest
unfolding hide unescape_from
unescape-hide c rest = ground arith

-- Unescaping an escaped text gives the text back, whatever bytes it holds.
pub unescape-escape : (s : Bytes) → unescape (escape s) ≡ s
unfolding unescape escape
unescape-escape [] = refl
unescape-escape (c ∷ s) = unescape-hide c (escape s) ∙ ap (◌∷◌ c) (unescape-escape s)

-- `split` takes the text `w` into the current part, whatever follows it.
abbrev IsWhole : Bytes → Type 0
IsWhole w =
    (rest current : Bytes)
    → split_from pipe (w ++ rest) current false ≡ split_from pipe rest (current ++ w) false

hide-IsWhole : (c : ℕ) → IsWhole (hide c)
unfolding hide split_from
hide-IsWhole c rest current = ground (
  arith,
  append_assoc current (backslash ∷ []) (pipe ∷ []),
  append_assoc current (backslash ∷ []) (backslash ∷ []),
)

escape-IsWhole : (s : Bytes) → IsWhole (escape s)
unfolding escape
escape-IsWhole [] rest current = rw append-nil
escape-IsWhole (c ∷ s) rest current = rw append_assoc (
    hide-IsWhole c _ _
    ∙ escape-IsWhole s rest _
    ∙ ap (λ t. split_from pipe rest t false) (append_assoc current _ _))

numeric-IsWhole : (s : Bytes) → All IsNumeric s → IsWhole s
unfolding split_from
numeric-IsWhole [] h rest current = rw append-nil
numeric-IsWhole (c ∷ s) h rest current =
    ground (arith, numeric-IsWhole s h.1 rest (current ++ c ∷ []), append_assoc current (c ∷ []) s)

split_whole : (w rest : Bytes) → IsWhole w → split (w ++ (pipe ∷ rest)) pipe ≡ w ∷ split rest pipe
unfolding split
split_whole w rest h = h (pipe ∷ rest) []

pub split-escape :
    (s rest : Bytes) → split (escape s ++ (pipe ∷ rest)) pipe ≡ escape s ∷ split rest pipe
split-escape s rest = split_whole (escape s) rest (escape-IsWhole s)

pub split-numeric :
    (s rest : Bytes) → All IsNumeric s → split (s ++ (pipe ∷ rest)) pipe ≡ s ∷ split rest pipe
split-numeric s rest h = split_whole s rest (numeric-IsWhole s h)

pub split-escape_last : (s : Bytes) → split (escape s) pipe ≡ escape s ∷ []
unfolding split
split-escape_last s =
    ap (λ t. split_from pipe t [] false) (sym (append-nil (escape s))) ∙ escape-IsWhole s [] []
