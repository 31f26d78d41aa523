-- ===== src/Util/Metrics.antt =====
-- src/util/Metrics.h and Metrics.cpp: the lines of metrics.jsonl. The file is the list of its lines;
-- opening and flushing change none. `ts` is the clock's reading as `nowIso8601` formats it, `thread`
-- the hash of the thread's id, and a `double` is the text that `std::showpoint` prints for it. The
-- lines are made of the fields that src/util/DetailedLogger.cpp writes too.
pub mod Tally
use interchain_communication.Prelude.{ℕ, List, [], ◌∷◌, ◌++◌, Bytes, codes, String}
use interchain_communication.Util.Decimal.{to_string}
use interchain_communication.Util.DetailedLogger.{Lines, text_field, number_field, fields, braces}
use interchain_communication.Core.Effect.{Effect, inc_counter}

-- What `incCounter`, `setGauge` and `observe` share: their lines differ in a type and in the name of
-- the number.
unfoldable pub metric_line : String → String → Bytes → Bytes → Bytes → ℕ → Bytes
metric_line type number_name ts name number thread = braces (
    fields (
      text_field "ts" ts
      ∷ text_field "type" (codes type)
      ∷ text_field "name" name
      ∷ number_field number_name number
      ∷ number_field "thread" (to_string thread)
      ∷ []))

unfoldable pub log_event : Lines → Bytes → Bytes → ℕ → Lines
log_event out ts json_payload thread =
    out
    ++ braces (
        fields (
          text_field "ts" ts
          ∷ number_field "thread" (to_string thread)
          ∷ number_field "payload" json_payload
          ∷ []))
      ∷ []

unfoldable pub add_counter : Lines → Bytes → Bytes → Bytes → ℕ → Lines
add_counter out ts name delta thread =
    out ++ metric_line "counter" "delta" ts name delta thread ∷ []

unfoldable pub set_gauge : Lines → Bytes → Bytes → Bytes → ℕ → Lines
set_gauge out ts name value thread = out ++ metric_line "gauge" "value" ts name value thread ∷ []

unfoldable pub observe : Lines → Bytes → Bytes → Bytes → ℕ → Lines
observe out ts name value thread = out ++ metric_line "histogram" "value" ts name value thread ∷ []

-- The default of `delta`, as it is printed.
abbrev pub one_text : Bytes
one_text = codes "1.00000"

-- The calls of the sink that effects stand for; only counters are written.
unfoldable pub count_effect : Lines → Bytes → ℕ → Effect → Lines
count_effect out ts thread (inc_counter name) = add_counter out ts (codes name) one_text thread
count_effect out ts thread _ = out

unfoldable pub count_effects : Lines → Bytes → ℕ → List Effect → Lines
count_effects out ts thread [] = out
count_effects out ts thread (e ∷ es) = count_effects (count_effect out ts thread e) ts thread es
