-- ===== src/Util/Logger/Levels.antt =====
-- What a level leaves out of the terminal (src/util/Logger.cpp).
use interchain_communication.Prelude.{
  ◌≡◌, refl, ap, ◌∙◌, true, false, List, [], ◌∷◌, Bytes, leb, if◌then◌else◌, Bool-cases, inl, inr,
}
use interchain_communication.Util.Logger.{
  LogLevel, trace_level, debug_level, info_level, warn_level, error_level, level_value, Logger,
  Terminal, set_level, log_line, trace, debug, info, warn, error,
}

-- A call of one of the five methods.
pub record Message : Type 0 where
  pub level : LogLevel
  pub ts : Bytes
  pub tid : Bytes
  pub text : Bytes

unfoldable pub log_at : LogLevel → Logger → Terminal → Bytes → Bytes → Bytes → Terminal
log_at trace_level = trace
log_at debug_level = debug
log_at info_level = info
log_at warn_level = warn
log_at error_level = error

unfoldable pub log_all : Logger → Terminal → List Message → Terminal
log_all l t [] = t
log_all l t (m ∷ ms) = log_all l (log_at m.level l t m.ts m.tid m.text) ms

-- The messages at a level or above.
unfoldable pub at_least : LogLevel → List Message → List Message
at_least level [] = []
at_least level (m ∷ ms) =
    let rest = at_least level ms in
    if leb (level_value level) (level_value m.level) then m ∷ rest else rest

log_at_shown :
    (level : LogLevel) (l : Logger) (k : LogLevel) (t : Terminal) (ts tid text : Bytes)
    → leb (level_value k) (level_value level) ≡ true
    → log_at level (set_level l k) t ts tid text
      ≡ log_at level (set_level l trace_level) t ts tid text
unfolding log_at trace debug info warn error set_level log_line
log_at_shown trace_level l k t ts tid text h = rw h
log_at_shown debug_level l k t ts tid text h = rw h
log_at_shown info_level l k t ts tid text h = rw h
log_at_shown warn_level l k t ts tid text h = rw h
log_at_shown error_level l k t ts tid text h = rw h

log_at_hidden :
    (level : LogLevel) (l : Logger) (k : LogLevel) (t : Terminal) (ts tid text : Bytes)
    → leb (level_value k) (level_value level) ≡ false
    → log_at level (set_level l k) t ts tid text ≡ t
unfolding log_at trace debug info warn error set_level
log_at_hidden trace_level l k t ts tid text h = rw h
log_at_hidden debug_level l k t ts tid text h = rw h
log_at_hidden info_level l k t ts tid text h = rw h
log_at_hidden warn_level l k t ts tid text h = rw h
log_at_hidden error_level l k t ts tid text h = rw h

-- A logger set to a level writes to both streams what a logger that shows everything would write of
-- the messages at that level or above, and nothing else.
pub log_all-at_least :
    (l : Logger) (k : LogLevel) (t : Terminal) (ms : List Message)
    → log_all (set_level l k) t ms ≡ log_all (set_level l trace_level) t (at_least k ms)
unfolding log_all at_least
log_all-at_least l k t [] = refl
log_all-at_least l k t (m ∷ ms) = elim (Bool-cases (leb (level_value k) (level_value m.level))) [
  | inl shown ↦
      ap (λ u. log_all (set_level l k) u ms) (log_at_shown m.level l k t m.ts m.tid m.text shown)
      ∙ log_all-at_least l k (log_at m.level (set_level l trace_level) t m.ts m.tid m.text) ms
      ∙ rw shown
  | inr hidden ↦
      ap (λ u. log_all (set_level l k) u ms) (log_at_hidden m.level l k t m.ts m.tid m.text hidden)
      ∙ log_all-at_least l k t ms
      ∙ rw hidden
]
