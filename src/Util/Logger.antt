-- ===== src/Util/Logger.antt =====
-- src/util/Logger.h and Logger.cpp: the lines on the terminal. `ts` is what `currentTime` prints and
-- `tid` the text of the thread's id; `std::cout` and `std::cerr` are lists of bytes. The level is read
-- outside the mutex, a race with `setLevel` that the model leaves out.
pub mod Levels
use interchain_communication.Prelude.{
  ℕ, List, [], ◌∷◌, ◌++◌, Bytes, codes, String, leb, if◌then◌else◌,
}

pub data LogLevel : Type 0 where
  trace_level debug_level info_level warn_level error_level : LogLevel

-- The underlying value, by which levels are compared.
abbrev pub level_value : LogLevel → ℕ
level_value trace_level = 0
level_value debug_level = 1
level_value info_level = 2
level_value warn_level = 3
level_value error_level = 4

pub record Logger : Type 0 where
  pub name : Bytes
  pub level : LogLevel

pub record Terminal : Type 0 where
  pub cout : Bytes
  pub cerr : Bytes

unfoldable pub new_logger : Bytes → Logger
new_logger name = record { name = name; level = info_level }

unfoldable pub set_level : Logger → LogLevel → Logger
set_level l level = record l { level = level }

unfoldable pub level_to_string : LogLevel → String
level_to_string trace_level = "TRACE"
level_to_string debug_level = "DEBUG"
level_to_string info_level = "INFO"
level_to_string warn_level = "WARN"
level_to_string error_level = "ERROR"

-- One line as the five methods print it; `type` is the text of the literal `[Type: …]`.
unfoldable pub log_line : Logger → LogLevel → String → Bytes → Bytes → Bytes → Bytes
log_line l level type ts tid msg =
    codes "["
    ++ (ts
        ++ (codes "] ["
            ++ (codes (level_to_string level)
                ++ (codes "] ["
                    ++ (l.name
                        ++ (codes "] [TID:"
                            ++ (tid
                                ++ (codes "] [Type: "
                                    ++ (codes type ++ (codes "] " ++ (msg ++ 10 ∷ [])))))))))))

unfoldable pub on_cout : Terminal → Bytes → Terminal
on_cout t text = record t { cout = t.cout ++ text }

unfoldable pub on_cerr : Terminal → Bytes → Terminal
on_cerr t text = record t { cerr = t.cerr ++ text }

unfoldable pub trace : Logger → Terminal → Bytes → Bytes → Bytes → Terminal
trace l t ts tid msg =
    if leb (level_value l.level) (level_value trace_level)
    then on_cout t (log_line l trace_level "TRACE" ts tid msg)
    else t

unfoldable pub debug : Logger → Terminal → Bytes → Bytes → Bytes → Terminal
debug l t ts tid msg =
    if leb (level_value l.level) (level_value debug_level)
    then on_cout t (log_line l debug_level "DEBUG" ts tid msg)
    else t

unfoldable pub info : Logger → Terminal → Bytes → Bytes → Bytes → Terminal
info l t ts tid msg =
    if leb (level_value l.level) (level_value info_level)
    then on_cout t (log_line l info_level "INFO" ts tid msg)
    else t

unfoldable pub warn : Logger → Terminal → Bytes → Bytes → Bytes → Terminal
warn l t ts tid msg =
    if leb (level_value l.level) (level_value warn_level)
    then on_cout t (log_line l warn_level "WARN" ts tid msg)
    else t

unfoldable pub error : Logger → Terminal → Bytes → Bytes → Bytes → Terminal
error l t ts tid msg =
    if leb (level_value l.level) (level_value error_level)
    then on_cerr t (log_line l error_level "ERROR" ts tid msg)
    else t
