-- ===== src/Util/DetailedLogger/Files.antt =====
-- The log files of src/util/DetailedLogger.cpp by their names, which differ, and what a write to one
-- of them leaves of the others.
use interchain_communication.Prelude.{
  ◌≡◌, refl, Bool, [], ◌∷◌, ◌++◌, Bytes, bytes_eq, bytes_eq_iff, codes, Dict, lookup, insert,
  lookup-insert, if◌then◌else◌, arith,
}
use mathlib.Core.List.{append_cancel_right}
use interchain_communication.Util.DetailedLogger.{DetailedLogger, Lines, lines_of, write}
use interchain_communication.Util.DetailedLogger.Streams.{Disk, node_state_file, relayer_state_file}

pub data LogFile : Type 0 where
  transactions_file ibc_events_file network_drops_file : LogFile
  node_file relayer_file : Bytes → LogFile

unfoldable pub file_name : LogFile → Bytes
unfolding node_state_file relayer_state_file
file_name transactions_file = codes "transactions.jsonl"
file_name ibc_events_file = codes "ibc_events.jsonl"
file_name network_drops_file = codes "network_drops.jsonl"
file_name (node_file key) = node_state_file key
file_name (relayer_file key) = relayer_state_file key

-- The lines of a log, by the name of its file.
unfoldable pub log_lines : DetailedLogger → LogFile → Lines
log_lines l transactions_file = l.transactions_log
log_lines l ibc_events_file = l.ibc_events_log
log_lines l network_drops_file = l.network_drops_log
log_lines l (node_file key) = lines_of (lookup key l.node_state_logs)
log_lines l (relayer_file key) = lines_of (lookup key l.relayer_state_logs)

unfoldable pub same_file : LogFile → LogFile → Bool
same_file f g = bytes_eq (file_name f) (file_name g)

-- What stands before one ending is all that can differ.
bytes_eq-append : (a b s : Bytes) → bytes_eq (a ++ s) (b ++ s) ≡ bytes_eq a b
bytes_eq-append a b s =
    ground (arith, bytes_eq_iff (a ++ s) (b ++ s), bytes_eq_iff a b, append_cancel_right a b s)

-- The lines of a key after one more was written.
lookup-write :
    (key j line : Bytes) (logs : Dict Lines)
    → lines_of (lookup j (write key line logs))
      ≡ (if bytes_eq key j then lines_of (lookup j logs) ++ line ∷ [] else lines_of (lookup j logs))
unfolding write
lookup-write key j line logs =
    ground (
      arith,
      bytes_eq_iff key j,
      lookup-insert key j (lines_of (lookup key logs) ++ line ∷ []) logs,
    )

-- One more line in one log, none in the others.
abbrev pub Appends : LogFile → Bytes → DetailedLogger → DetailedLogger → Type 0
Appends f line l l' =
    (g : LogFile)
    → log_lines l' g ≡ (if same_file f g then log_lines l g ++ line ∷ [] else log_lines l g)

pub transactions-Appends :
    (l : DetailedLogger) (line : Bytes)
    → Appends transactions_file line l
        (record l { transactions_log = l.transactions_log ++ line ∷ [] })
unfolding log_lines same_file file_name node_state_file relayer_state_file bytes_eq
transactions-Appends l line transactions_file = refl
transactions-Appends l line ibc_events_file = refl
transactions-Appends l line network_drops_file = refl
transactions-Appends l line (node_file key) = refl
transactions-Appends l line (relayer_file key) = refl

pub ibc_events-Appends :
    (l : DetailedLogger) (line : Bytes)
    → Appends ibc_events_file line l (record l { ibc_events_log = l.ibc_events_log ++ line ∷ [] })
unfolding log_lines same_file file_name node_state_file relayer_state_file bytes_eq
ibc_events-Appends l line transactions_file = refl
ibc_events-Appends l line ibc_events_file = refl
ibc_events-Appends l line network_drops_file = refl
ibc_events-Appends l line (node_file key) = refl
ibc_events-Appends l line (relayer_file key) = refl

pub network_drops-Appends :
    (l : DetailedLogger) (line : Bytes)
    → Appends network_drops_file line l
        (record l { network_drops_log = l.network_drops_log ++ line ∷ [] })
unfolding log_lines same_file file_name node_state_file relayer_state_file bytes_eq
network_drops-Appends l line transactions_file = refl
network_drops-Appends l line ibc_events_file = refl
network_drops-Appends l line network_drops_file = refl
network_drops-Appends l line (node_file key) = refl
network_drops-Appends l line (relayer_file key) = refl

pub node_states-Appends :
    (l : DetailedLogger) (key line : Bytes)
    → Appends
        (node_file key)
        line
        l
        (record l { node_state_logs = write key line l.node_state_logs })
unfolding log_lines same_file file_name node_state_file relayer_state_file bytes_eq
node_states-Appends l key line transactions_file = refl
node_states-Appends l key line ibc_events_file = refl
node_states-Appends l key line network_drops_file = refl
node_states-Appends l key line (node_file j) =
    rw (bytes_eq-append key j (codes ".jsonl"), lookup-write key j line l.node_state_logs)
node_states-Appends l key line (relayer_file j) = refl

pub relayer_states-Appends :
    (l : DetailedLogger) (key line : Bytes)
    → Appends
        (relayer_file key)
        line
        l
        (record l { relayer_state_logs = write key line l.relayer_state_logs })
unfolding log_lines same_file file_name node_state_file relayer_state_file bytes_eq
relayer_states-Appends l key line transactions_file = refl
relayer_states-Appends l key line ibc_events_file = refl
relayer_states-Appends l key line network_drops_file = refl
relayer_states-Appends l key line (node_file j) = refl
relayer_states-Appends l key line (relayer_file j) =
    rw (bytes_eq-append key j (codes ".jsonl"), lookup-write key j line l.relayer_state_logs)

-- What a stream does to the files.
unfoldable pub content : Bytes → Disk → Lines
content file d = lines_of (lookup file d)

content-insert :
    (f g : Bytes) (lines : Lines) (d : Disk)
    → content g (insert f lines d) ≡ (if bytes_eq f g then lines else content g d)
unfolding content
content-insert f g lines d = ground (arith, lookup-insert f g lines d)

-- A file that grows, and one that is written back as it is.
pub content-grow :
    (f g : Bytes) (lines : Lines) (d : Disk)
    → content g (insert f (content f d ++ lines) d)
      ≡ (if bytes_eq f g then content g d ++ lines else content g d)
content-grow f g lines d =
    ground (arith, bytes_eq_iff f g, content-insert f g (content f d ++ lines) d)

pub content-touch : (f g : Bytes) (d : Disk) → content g (insert f (content f d) d) ≡ content g d
content-touch f g d = ground (arith, bytes_eq_iff f g, content-insert f g (content f d) d)
