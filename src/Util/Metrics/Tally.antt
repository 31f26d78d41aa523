-- ===== src/Util/Metrics/Tally.antt =====
-- What a reader of metrics.jsonl finds: the counters of the program (src/util/Metrics.cpp).
use interchain_communication.Prelude.{
  ℕ, ◌+◌, ◌≡◌, refl, sym, ap, ◌∙◌, Bool, true, false, ◌&&◌, List, [], ◌∷◌, ◌++◌, append_assoc,
  Option, none, some, Bytes, codes, String, bytes_eq, bytes_eq_refl, ◌==◌, if◌then◌else◌, All,
  All-append, arith,
}
use interchain_communication.Util.Json.{quote, escape_json}
use interchain_communication.Util.Json.Reader.{plain, read, read-escape_json, IsLine}
use interchain_communication.Util.DetailedLogger.{Lines, text_field, fields, braces}
use interchain_communication.Util.DetailedLogger.Fields.{
  is_line, is_line-IsLine, text_field-IsLine, number_field-IsLine, count_field-IsLine,
  fields-IsLine, braces-IsLine,
}
use interchain_communication.Core.Effect.{
  Effect, publishes, inc_counter, logs_ibc_event, logs_transaction, logs_network_drop,
  logs_node_state, logs_relayer_state,
}
use interchain_communication.Util.Metrics.{
  metric_line, add_counter, one_text, count_effect, count_effects,
}

-- What stands behind a prefix.
unfoldable pub strip : Bytes → Bytes → Option Bytes
strip [] s = some s
strip (c ∷ prefix) [] = none
strip (c ∷ prefix) (d ∷ s) = if c == d then strip prefix s else none

strip-append : (prefix s : Bytes) → strip prefix (prefix ++ s) ≡ some s
unfolding strip
strip-append [] s = refl
strip-append (c ∷ prefix) s = ground (arith, strip-append prefix s)

-- The values of text fields of these names, each with a comma behind it.
abbrev cons_to : Bytes → Option (List Bytes) → Option (List Bytes)
cons_to text none = none
cons_to text (some texts) = some (text ∷ texts)

abbrev behind_text : Option (Bytes × Bytes) → (Bytes → Option (List Bytes)) → Option (List Bytes)
behind_text none next = none
behind_text (some (text, rest)) next = elim (strip (b',' ∷ []) rest) [
  | none ↦ none
  | some more ↦ cons_to text (next more)
]

abbrev behind_name : Option Bytes → (Bytes → Option (List Bytes)) → Option (List Bytes)
behind_name none next = none
behind_name (some s) next = behind_text (read plain s) next

unfoldable pub read_texts : List String → Bytes → Option (List Bytes)
read_texts [] s = some []
read_texts (name ∷ names) s =
    behind_name (strip (b'"' ∷ (codes name ++ codes "\":\"")) s) (read_texts names)

read_texts-cons :
    (name : String) (names : List String) (text rest : Bytes)
    → read_texts (name ∷ names) (text_field name text ++ (b',' ∷ rest))
      ≡ cons_to text (read_texts names rest)
unfolding read_texts text_field
read_texts-cons name names text rest =
    ap (λ s. behind_name (strip prefix s) (read_texts names)) regroup
    ∙ ap (λ o. behind_name o (read_texts names)) (strip-append prefix (escape_json text ++ behind))
    ∙ ap (λ o. behind_text o (read_texts names)) (read-escape_json text (b',' ∷ rest))
    ∙ unfold strip in refl
  where
    prefix : Bytes
    prefix = b'"' ∷ (codes name ++ codes "\":\"")

    behind : Bytes
    behind = quote ∷ b',' ∷ rest

    regroup : text_field name text ++ (b',' ∷ rest) ≡ prefix ++ (escape_json text ++ behind)
    regroup =
        ap (λ s. b'"' ∷ s)
          (append_assoc (codes name) (codes "\":\"" ++ (escape_json text ++ b'"' ∷ []))
              (b',' ∷ rest)
            ∙ ap (λ s. codes name ++ (codes "\":\"" ++ s))
                (append_assoc (escape_json text) (b'"' ∷ []) (b',' ∷ rest))
            ∙ sym (append_assoc (codes name) (codes "\":\"") (escape_json text ++ behind)))

-- The time, type and name that a line tells.
abbrev line_fields : Option Bytes → Option (List Bytes)
line_fields none = none
line_fields (some s) = read_texts ("ts" ∷ "type" ∷ "name" ∷ []) s

unfoldable pub read_line : Bytes → Option (List Bytes)
read_line s = line_fields (strip (b'{' ∷ []) s)

no_names : (s : Bytes) → read_texts [] s ≡ some []
unfolding read_texts
no_names s = refl

then_texts :
    (name : String) (names : List String) (text rest tail : Bytes)
    → read_texts (name ∷ names) ((text_field name text ++ (b',' ∷ rest)) ++ tail)
      ≡ cons_to text (read_texts names (rest ++ tail))
then_texts name names text rest tail =
    ap (read_texts (name ∷ names)) (append_assoc (text_field name text) (b',' ∷ rest) tail)
    ∙ read_texts-cons name names text (rest ++ tail)

read_line-metric_line :
    (type number_name : String) (ts name number : Bytes) (thread : ℕ)
    → read_line (metric_line type number_name ts name number thread)
      ≡ some (ts ∷ codes type ∷ name ∷ [])
unfolding read_line metric_line braces fields
read_line-metric_line type number_name ts name number thread =
    ap line_fields (strip-append (b'{' ∷ []) _)
    ∙ then_texts "ts" ("type" ∷ "name" ∷ []) ts _ _
    ∙ ap (cons_to ts) (
        then_texts "type" ("name" ∷ []) (codes type) _ _
        ∙ ap (cons_to (codes type))
            (then_texts "name" [] name _ _ ∙ ap (cons_to name) (no_names _)))

-- Whether a line tells of the counter of a name.
abbrev names_counter : Bytes → Option (List Bytes) → Bool
names_counter name (some (ts ∷ type ∷ n ∷ [])) = bytes_eq type (codes "counter") && bytes_eq n name
names_counter name _ = false

unfoldable pub tally : Bytes → Lines → ℕ
tally name [] = 0
tally name (line ∷ lines) =
    (if names_counter name (read_line line) then 1 else 0) + tally name lines

-- How often effects increment the counter of a name.
unfoldable pub increments : Bytes → List Effect → ℕ
increments name [] = 0
increments name (inc_counter n ∷ es) =
    (if bytes_eq (codes n) name then 1 else 0) + increments name es
increments name (_ ∷ es) = increments name es

tally-append : (name : Bytes) (a b : Lines) → tally name (a ++ b) ≡ tally name a + tally name b
unfolding tally
tally-append name [] b = omega arith
tally-append name (line ∷ a) b = omega (arith, tally-append name a b)

tally-add_counter :
    (name ts n delta : Bytes) (thread : ℕ) (out : Lines)
    → tally name (add_counter out ts n delta thread)
      ≡ tally name out + (if bytes_eq n name then 1 else 0)
unfolding add_counter tally
tally-add_counter name ts n delta thread out =
    tally-append name out _
    ∙ ap (λ o. tally name out + ((if names_counter name o then 1 else 0) + 0))
        (read_line-metric_line "counter" "delta" ts n delta thread)
    ∙ rw (bytes_eq_refl (codes "counter")) (omega arith)

metric_line-IsLine :
    (type number_name : String) (ts name number : Bytes) (thread : ℕ)
    → is_line (codes number_name) ≡ true
    → IsLine number
    → IsLine (metric_line type number_name ts name number thread)
unfolding metric_line
metric_line-IsLine type number_name ts name number thread h n = braces-IsLine _ (
    fields-IsLine _ (
      text_field-IsLine "ts" ts refl,
      (
        text_field-IsLine "type" (codes type) refl,
        (
          text_field-IsLine "name" name refl,
          (
            number_field-IsLine number_name number h n,
            (count_field-IsLine "thread" thread refl, tt),
          ),
        ),
      ),
    ))

-- The lines of metrics.jsonl keep count. When effects are performed, the lines that tell of a counter
-- become as many more as there are increments of it among the effects, whatever the clock and the
-- threads print, and a file of whole lines stays one.
pub tally-count_effects :
    (name ts : Bytes) (thread : ℕ) (out : Lines) (es : List Effect)
    → All IsLine out
    → (tally name (count_effects out ts thread es) ≡ tally name out + increments name es)
      × All IsLine (count_effects out ts thread es)
unfolding count_effects count_effect increments
tally-count_effects name ts thread out [] h = (omega arith, h)
tally-count_effects name ts thread out (inc_counter n ∷ es) h =
    let (more, whole) =
      tally-count_effects name ts thread (add_counter out ts (codes n) one_text thread) es (
        unfold add_counter in
        All-append IsLine out _ h (
          metric_line-IsLine "counter" "delta" ts (codes n) one_text thread refl
              (is_line-IsLine one_text refl),
          tt,
        )) in
    (omega (arith, more, tally-add_counter name ts (codes n) one_text thread out), whole)
tally-count_effects name ts thread out (publishes e ∷ es) h =
    tally-count_effects name ts thread out es h
tally-count_effects name ts thread out (logs_ibc_event a b c ∷ es) h =
    tally-count_effects name ts thread out es h
tally-count_effects name ts thread out (logs_transaction a b c d ∷ es) h =
    tally-count_effects name ts thread out es h
tally-count_effects name ts thread out (logs_network_drop a b c ∷ es) h =
    tally-count_effects name ts thread out es h
tally-count_effects name ts thread out (logs_node_state a ∷ es) h =
    tally-count_effects name ts thread out es h
tally-count_effects name ts thread out (logs_relayer_state a ∷ es) h =
    tally-count_effects name ts thread out es h
