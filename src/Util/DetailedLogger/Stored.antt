-- ===== src/Util/DetailedLogger/Stored.antt =====
-- The files that the streams of src/util/DetailedLogger.cpp write hold the lines of the logs.
use interchain_communication.Prelude.{
  ◌≡◌, refl, subst, Bool, true, [], ◌∷◌, ◌++◌, append-nil, append_assoc, Option, none, some, Bytes,
  bytes_eq, bytes_eq_iff, Dict, lookup, insert, if◌then◌else◌, if_keeps, Bool-cases, inl, inr, All,
}
use interchain_communication.Util.Error.{Outcome, returns, throws}
use interchain_communication.Util.DetailedLogger.{DetailedLogger}
use interchain_communication.Util.DetailedLogger.Streams.{
  Disk, LogStream, and_then, open_stream, flush, write_line, get_log, write_log,
}
use interchain_communication.Util.DetailedLogger.Files.{
  LogFile, file_name, log_lines, same_file, Appends, content, content-grow, content-touch,
}

-- The outcome is no exception, and the predicate holds of it.
abbrev pub Ends : {A : Type 0} → Outcome A → (A → Type 0) → Type 0
Ends (returns a) P = P a
Ends (throws e) P = ⊥

pub Ends-and_then :
    {A B : Type 0} (m : Outcome A) (k : A → Outcome B) (P : A → Type 0) (Q : B → Type 0)
    → Ends m P
    → ((a : A) → P a → Ends (k a) Q)
    → Ends (and_then m k) Q
Ends-and_then (returns a) k P Q h next = next a h
Ends-and_then (throws e) k P Q h next = absurd h

pub Ends-returns :
    {A : Type 0} (m : Outcome A) (P : A → Type 0) → Ends m P → (a : A) × (m ≡ returns a)
Ends-returns (returns a) P h = (a, refl)
Ends-returns (throws e) P h = absurd h

pub Ends-map :
    {A : Type 0} (m : Outcome A) (P Q : A → Type 0) → Ends m P → ((a : A) → P a → Q a) → Ends m Q
Ends-map (returns a) P Q h k = k a h
Ends-map (throws e) P Q h k = h

-- A stream on a log's file that has flushed all it was given.
abbrev pub IsOpen : LogFile → LogStream → Type 0
IsOpen f s = (s.file ≡ file_name f) × (s.unflushed ≡ [])

abbrev pub AllOpen : (Bytes → LogFile) → Dict LogStream → Type 0
AllOpen file = All (λ entry. IsOpen (file entry.0) entry.1)

-- The file of one log has one more line, the others are as they were.
abbrev pub Writes : LogFile → Bytes → Disk → Disk → Type 0
Writes f line d d' =
    (g : LogFile)
    → content (file_name g) d'
      ≡ (if same_file f g then content (file_name g) d ++ line ∷ [] else content (file_name g) d)

abbrev pub Same : Disk → Disk → Type 0
Same d d' = (file : Bytes) → content file d' ≡ content file d

abbrev pub Stores : DetailedLogger → Disk → Disk → Type 0
Stores l d₀ d = (g : LogFile) → content (file_name g) d ≡ content (file_name g) d₀ ++ log_lines l g

pub Stores-Writes :
    (f : LogFile) (line : Bytes) (l l' : DetailedLogger) (d₀ d d' : Disk)
    → Appends f line l l'
    → Writes f line d d'
    → Stores l d₀ d
    → Stores l' d₀ d'
Stores-Writes f line l l' d₀ d d' a w h g = elim (Bool-cases (same_file f g)) [
  | inl e ↦
      rw (w g, a g, e, h g, append_assoc (content (file_name g) d₀) (log_lines l g) (line ∷ []))
  | inr e ↦ rw (w g, a g, e, h g)
]

pub flush-Same : (f : LogFile) (s : LogStream) (d : Disk) → IsOpen f s → Same d (flush s d).1
unfolding flush content
flush-Same f s d (named, clear) file =
    rw (clear, append-nil (content s.file d), content-touch s.file file d)

pub write_line-Writes :
    (f : LogFile) (s : LogStream) (line : Bytes) (d : Disk)
    → IsOpen f s
    → IsOpen f (write_line s line d).0 × Writes f line d (write_line s line d).1
unfolding write_line flush same_file content bytes_eq
write_line-Writes f s line d (named, clear) =
    ((named, refl), λ g. rw (clear, content-grow s.file (file_name g) (line ∷ []) d, named))

-- What is found under a key, if anything.
abbrev FoundOpen : LogFile → Option LogStream → Type 0
FoundOpen f none = Unit
FoundOpen f (some s) = IsOpen f s

lookup-AllOpen :
    (file : Bytes → LogFile) (key : Bytes) (logs : Dict LogStream)
    → AllOpen file logs
    → FoundOpen (file key) (lookup key logs)
unfolding lookup
lookup-AllOpen file key [] h = tt
lookup-AllOpen file key ((j, s) ∷ logs) (hs, h) = elim (Bool-cases (bytes_eq j key)) [
  | inl e ↦ rw e (subst (λ k. IsOpen (file k) s) ((bytes_eq_iff j key).0 e) hs)
  | inr e ↦ rw e (lookup-AllOpen file key logs h)
]

insert-AllOpen :
    (file : Bytes → LogFile) (key : Bytes) (s : LogStream) (logs : Dict LogStream)
    → IsOpen (file key) s
    → AllOpen file logs
    → AllOpen file (insert key s logs)
unfolding insert
insert-AllOpen file key s [] hs h = (hs, tt)
insert-AllOpen file key s ((j, v) ∷ logs) hs (hv, h) =
    if_keeps (AllOpen file) (bytes_eq j key) ((key, s) ∷ logs) ((j, v) ∷ insert key s logs) (hs, h)
      (hv, insert-AllOpen file key s logs hs h)

Same-Writes :
    (f : LogFile) (line : Bytes) (d d' d'' : Disk)
    → Same d d'
    → Writes f line d' d''
    → Writes f line d d''
Same-Writes f line d d' d'' same w g = rw (w g, same (file_name g))

module _ (opens : Bytes → Bool) (all_open : (file : Bytes) → opens file ≡ true) where
  pub open_stream-Ends :
      (f : LogFile) (d : Disk)
      → Ends (open_stream opens (file_name f) d) (λ (s, d'). IsOpen f s × Same d d')
  unfolding open_stream content
  open_stream-Ends f d =
      rw (all_open (file_name f)) ((refl, refl), λ g. content-touch (file_name f) g d)

  get_log-Ends :
      (file : Bytes → LogFile) (key : Bytes) (logs : Dict LogStream) (d : Disk)
      (o : Option LogStream)
      → AllOpen file logs
      → FoundOpen (file key) o
      → Ends
          (get_log opens key (file_name (file key)) logs d o)
          (λ (s, logs', d'). IsOpen (file key) s × AllOpen file logs' × Same d d')
  unfolding get_log
  get_log-Ends file key logs d (some s) h hs = (hs, h, λ g. refl)
  get_log-Ends file key logs d none h _ =
      Ends-and_then (open_stream opens (file_name (file key)) d) _ _ _
        (open_stream-Ends (file key) d)
        (λ (s, d') (hs, same). (hs, insert-AllOpen file key s logs hs h, same))

  pub write_log-Ends :
      (file : Bytes → LogFile) (key line : Bytes) (logs : Dict LogStream) (d : Disk)
      → AllOpen file logs
      → Ends
          (write_log opens key (file_name (file key)) line logs d)
          (λ (logs', d'). AllOpen file logs' × Writes (file key) line d d')
  unfolding write_log
  write_log-Ends file key line logs d h =
      Ends-and_then (get_log opens key (file_name (file key)) logs d (lookup key logs)) _ _ _
        (get_log-Ends file key logs d (lookup key logs) h (lookup-AllOpen file key logs h))
        (λ (s, logs', d') (hs, h', same).
          let (open', writes) = write_line-Writes (file key) s line d' hs in
          (
            insert-AllOpen file key _ logs' open' h',
            Same-Writes (file key) line d d' _ same writes,
          ))
