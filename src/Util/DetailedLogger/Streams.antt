-- ===== src/Util/DetailedLogger/Streams.antt =====
-- src/util/DetailedLogger.h and DetailedLogger.cpp: the log files and the streams that write them. A
-- disk is the lines of each of its files. `opens` says which files the system lets the program open
-- to append to; a stream of the standard library keeps what it was given until it is flushed.
use interchain_communication.Prelude.{
  Bool, true, List, [], ◌∷◌, ◌++◌, Option, none, some, Bytes, codes, Dict, lookup, insert,
  if◌then◌else◌,
}
use interchain_communication.Util.Error.{Outcome, returns, throws, open_failed}
use interchain_communication.Core.Effect.{
  Effect, publishes, inc_counter, logs_ibc_event, logs_transaction, logs_network_drop,
  logs_node_state, logs_relayer_state,
}
use interchain_communication.Util.DetailedLogger.{
  LogCategory, transactions, ibc_events, network_drops, node_state, relayer_state, Lines, lines_of,
  transaction_line, ibc_event_line, network_drop_line, node_state_key, node_state_line,
  relayer_state_line,
}

abbrev pub Disk : Type 0
Disk = Dict Lines

pub record LogStream : Type 0 where
  pub file : Bytes
  pub unflushed : Lines

-- The streams of the coordinator, and its flags.
pub record Streams : Type 0 where
  pub transactions_log : LogStream
  pub ibc_events_log : LogStream
  pub network_drops_log : LogStream
  pub node_state_logs : Dict LogStream
  pub relayer_state_logs : Dict LogStream
  pub enabled : LogCategory → Bool

abbrev pub and_then : {A B : Type 0} → Outcome A → (A → Outcome B) → Outcome B
and_then (returns a) k = k a
and_then (throws e) k = throws e

-- To open a file to append to makes it, if it is new, and changes no line of it.
unfoldable pub open_stream : (Bytes → Bool) → Bytes → Disk → Outcome (LogStream × Disk)
open_stream opens file d =
    if opens file
    then returns (record { file = file; unflushed = [] }, insert file (lines_of (lookup file d)) d)
    else throws (open_failed file)

unfoldable pub flush : LogStream → Disk → LogStream × Disk
flush s d =
    (record s { unflushed = [] }, insert s.file (lines_of (lookup s.file d) ++ s.unflushed) d)

unfoldable pub write_line : LogStream → Bytes → Disk → LogStream × Disk
write_line s line d = flush (record s { unflushed = s.unflushed ++ line ∷ [] }) d

unfoldable pub new_streams : (Bytes → Bool) → Disk → Outcome (Streams × Disk)
new_streams opens d = and_then (open_stream opens (codes "transactions.jsonl") d) (λ (t, d₁).
    and_then (open_stream opens (codes "ibc_events.jsonl") d₁) (λ (i, d₂).
      and_then (open_stream opens (codes "network_drops.jsonl") d₂) (λ (n, d₃). returns (
        record {
          transactions_log = t;
          ibc_events_log = i;
          network_drops_log = n;
          node_state_logs = [];
          relayer_state_logs = [];
          enabled = λ _. true;
        },
        d₃,
      ))))

-- `getNodeStateLog` and `getRelayerStateLog`, which differ in the key and the name of the file: the
-- stream of a key, opened if it is new.
unfoldable pub get_log :
    (Bytes → Bool)
    → Bytes
    → Bytes
    → Dict LogStream
    → Disk
    → Option LogStream
    → Outcome (LogStream × Dict LogStream × Disk)
get_log opens key file logs d (some s) = returns (s, logs, d)
get_log opens key file logs d none =
    and_then (open_stream opens file d) (λ (s, d'). returns (s, insert key s logs, d'))

unfoldable pub node_state_file : Bytes → Bytes
node_state_file key = codes "node_state_" ++ (key ++ codes ".jsonl")

unfoldable pub relayer_state_file : Bytes → Bytes
relayer_state_file key = codes "relayer_state_" ++ (key ++ codes ".jsonl")

-- A line to the log of a key.
unfoldable pub write_log :
    (Bytes → Bool) → Bytes → Bytes → Bytes → Dict LogStream → Disk → Outcome (Dict LogStream × Disk)
unfolding write_line
write_log opens key file line logs d =
    and_then (get_log opens key file logs d (lookup key logs))
      (λ (s, logs', d'). let (s', d'') = write_line s line d' in returns (insert key s' logs', d''))

module _ (opens : Bytes → Bool) where
  -- The five calls that log.
  unfoldable pub record_effect : Streams → Disk → Bytes → Effect → Outcome (Streams × Disk)
  unfolding write_line
  record_effect s d ts (publishes e) = returns (s, d)
  record_effect s d ts (inc_counter name) = returns (s, d)
  record_effect s d ts (logs_transaction event tx chain_id node_id) =
      if s.enabled transactions
      then (let (log, d') =
            write_line s.transactions_log (transaction_line ts event tx chain_id node_id 0) d in
          returns (record s { transactions_log = log }, d'))
      else returns (s, d)
  record_effect s d ts (logs_ibc_event event p relayer_id) =
      if s.enabled ibc_events
      then (let (log, d') =
            write_line s.ibc_events_log (ibc_event_line ts event p relayer_id none) d in
          returns (record s { ibc_events_log = log }, d'))
      else returns (s, d)
  record_effect s d ts (logs_network_drop from to size) =
      if s.enabled network_drops
      then (let (log, d') =
            write_line s.network_drops_log
              (network_drop_line ts from to (codes "unknown") size (codes "random_drop")) d in
          returns (record s { network_drops_log = log }, d'))
      else returns (s, d)
  record_effect s d ts (logs_node_state n) =
      if s.enabled node_state
      then and_then
          (write_log opens (node_state_key n.chain_id n.node_id)
            (node_state_file (node_state_key n.chain_id n.node_id)) (node_state_line ts n [])
            s.node_state_logs d)
          (λ (logs, d'). returns (record s { node_state_logs = logs }, d'))
      else returns (s, d)
  record_effect s d ts (logs_relayer_state r) =
      if s.enabled relayer_state
      then and_then
          (write_log opens r.relayer_id (relayer_state_file r.relayer_id) (relayer_state_line ts r)
            s.relayer_state_logs d)
          (λ (logs, d'). returns (record s { relayer_state_logs = logs }, d'))
      else returns (s, d)

  -- Each record with the reading of the clock at its time.
  unfoldable pub record_all : Streams → Disk → List (Bytes × Effect) → Outcome (Streams × Disk)
  record_all s d [] = returns (s, d)
  record_all s d ((ts, e) ∷ es) =
      and_then (record_effect s d ts e) (λ (s', d'). record_all s' d' es)

-- `flushAll`, which the destructor calls too. What a stream has not flushed is all that changes.
unfoldable pub flush_logs : Dict LogStream → Disk → Disk
unfolding flush
flush_logs [] d = d
flush_logs ((key, s) ∷ logs) d = flush_logs logs (flush s d).1

unfoldable pub flush_all : Streams → Disk → Disk
unfolding flush
flush_all s d = flush_logs s.relayer_state_logs (
    flush_logs s.node_state_logs
      (flush s.network_drops_log (flush s.ibc_events_log (flush s.transactions_log d).1).1).1)
