-- ===== src/Util/DetailedLogger/Durable.antt =====
-- What src/util/DetailedLogger.cpp has logged is in its files at every moment.
use interchain_communication.Prelude.{
  ◌≡◌, refl, sym, ◌∙◌, Bool, true, false, List, [], ◌∷◌, ◌++◌, append-nil, none, Bytes, codes, Dict,
  lookup, if◌then◌else◌,
}
use interchain_communication.Util.Error.{Outcome, returns}
use interchain_communication.Core.Effect.{
  Effect, publishes, inc_counter, logs_ibc_event, logs_transaction, logs_network_drop,
  logs_node_state, logs_relayer_state,
}
use interchain_communication.Util.DetailedLogger.{
  DetailedLogger, transactions, ibc_events, network_drops, node_state, relayer_state,
  log_transaction_event, log_ibc_event, log_network_drop, log_node_state, log_relayer_state,
  transaction_line, ibc_event_line, network_drop_line, node_state_key, node_state_line,
  relayer_state_line, new_detailed_logger,
}
use interchain_communication.Util.DetailedLogger.Lines.{perform, perform_all}
use interchain_communication.Util.DetailedLogger.Streams.{
  Disk, LogStream, Streams, and_then, open_stream, flush, new_streams, write_log, node_state_file,
  relayer_state_file, record_effect, record_all, flush_logs, flush_all,
}
use interchain_communication.Util.DetailedLogger.Files.{
  LogFile, transactions_file, ibc_events_file, network_drops_file, node_file, relayer_file,
  file_name, log_lines, transactions-Appends, ibc_events-Appends, network_drops-Appends,
  node_states-Appends, relayer_states-Appends, content,
}
use interchain_communication.Util.DetailedLogger.Stored.{
  Ends, Ends-and_then, Ends-map, IsOpen, AllOpen, Same, Stores, Stores-Writes, flush-Same,
  write_line-Writes, open_stream-Ends, write_log-Ends,
}

abbrev SameFlags : DetailedLogger → Streams → Type 0
SameFlags l s =
    (s.enabled transactions ≡ l.transactions_enabled)
    × (s.enabled ibc_events ≡ l.ibc_events_enabled)
    × (s.enabled network_drops ≡ l.network_drops_enabled)
    × (s.enabled node_state ≡ l.node_state_enabled)
    × (s.enabled relayer_state ≡ l.relayer_state_enabled)

abbrev AreOpen : Streams → Type 0
AreOpen s =
    IsOpen transactions_file s.transactions_log
    × IsOpen ibc_events_file s.ibc_events_log
    × IsOpen network_drops_file s.network_drops_log
    × AllOpen node_file s.node_state_logs
    × AllOpen relayer_file s.relayer_state_logs

-- The streams stand for the logs, on a disk that was `d₀` before.
abbrev Agrees : DetailedLogger → Disk → Streams × Disk → Type 0
Agrees l d₀ (s, d) = SameFlags l s × AreOpen s × Stores l d₀ d

-- A call that both make under their flag.
guarded :
    (d₀ : Disk) (b c : Bool) (l l' : DetailedLogger) (m : Outcome (Streams × Disk))
    (x : Streams × Disk)
    → c ≡ b
    → Ends m (Agrees l' d₀)
    → Agrees l d₀ x
    → Ends (if c then m else returns x) (Agrees (if b then l' else l) d₀)
guarded d₀ true true l l' m x e h a = h
guarded d₀ false false l l' m x e h a = a
guarded d₀ true false l l' m x e h a = cc
guarded d₀ false true l l' m x e h a = cc

new-log_lines : (g : LogFile) → log_lines new_detailed_logger g ≡ []
unfolding log_lines lookup
new-log_lines transactions_file = refl
new-log_lines ibc_events_file = refl
new-log_lines network_drops_file = refl
new-log_lines (node_file key) = refl
new-log_lines (relayer_file key) = refl

new-Stores : (d₀ d : Disk) → Same d₀ d → Stores new_detailed_logger d₀ d
new-Stores d₀ d same g =
    rw (same (file_name g), new-log_lines g) (sym (append-nil (content (file_name g) d₀)))

module _ (opens : Bytes → Bool) (all_open : (file : Bytes) → opens file ≡ true) where
  record_effect-Ends :
      (l : DetailedLogger) (s : Streams) (d₀ d : Disk) (ts : Bytes) (e : Effect)
      → Agrees l d₀ (s, d)
      → Ends (record_effect opens s d ts e) (Agrees (perform l ts e) d₀)
  unfolding record_effect perform log_transaction_event log_ibc_event log_network_drop
      log_node_state log_relayer_state file_name node_state_file relayer_state_file
  record_effect-Ends l s d₀ d ts (publishes e) a = a
  record_effect-Ends l s d₀ d ts (inc_counter name) a = a
  record_effect-Ends l s d₀ d ts (logs_transaction event tx chain_id node_id)
        ((ft, fi, fn, fs, fr), (t, i, n, ns, rs), h) =
      let line = transaction_line ts event tx chain_id node_id 0 in
      let (o', w) = write_line-Writes transactions_file s.transactions_log line d t in
      guarded d₀ _ _ l _ _ (s, d) ft
        (
          (ft, fi, fn, fs, fr),
          (o', i, n, ns, rs),
          Stores-Writes transactions_file line l _ d₀ d _ (transactions-Appends l line) w h,
        )
        ((ft, fi, fn, fs, fr), (t, i, n, ns, rs), h)
  record_effect-Ends l s d₀ d ts (logs_ibc_event event p relayer_id)
        ((ft, fi, fn, fs, fr), (t, i, n, ns, rs), h) =
      let line = ibc_event_line ts event p relayer_id none in
      let (o', w) = write_line-Writes ibc_events_file s.ibc_events_log line d i in
      guarded d₀ _ _ l _ _ (s, d) fi
        (
          (ft, fi, fn, fs, fr),
          (t, o', n, ns, rs),
          Stores-Writes ibc_events_file line l _ d₀ d _ (ibc_events-Appends l line) w h,
        )
        ((ft, fi, fn, fs, fr), (t, i, n, ns, rs), h)
  record_effect-Ends l s d₀ d ts (logs_network_drop from to size)
        ((ft, fi, fn, fs, fr), (t, i, n, ns, rs), h) =
      let line = network_drop_line ts from to (codes "unknown") size (codes "random_drop") in
      let (o', w) = write_line-Writes network_drops_file s.network_drops_log line d n in
      guarded d₀ _ _ l _ _ (s, d) fn
        (
          (ft, fi, fn, fs, fr),
          (t, i, o', ns, rs),
          Stores-Writes network_drops_file line l _ d₀ d _ (network_drops-Appends l line) w h,
        )
        ((ft, fi, fn, fs, fr), (t, i, n, ns, rs), h)
  record_effect-Ends l s d₀ d ts (logs_node_state snapshot)
        ((ft, fi, fn, fs, fr), (t, i, n, ns, rs), h) =
      let key = node_state_key snapshot.chain_id snapshot.node_id in
      let line = node_state_line ts snapshot [] in
      guarded d₀ _ _ l _ _ (s, d) fs
        (Ends-and_then (write_log opens key (node_state_file key) line s.node_state_logs d) _ _ _
          (write_log-Ends opens all_open node_file key line s.node_state_logs d ns)
          (λ (logs, d') (o', w). (
            (ft, fi, fn, fs, fr),
            (t, i, n, o', rs),
            Stores-Writes (node_file key) line l _ d₀ d d' (node_states-Appends l key line) w h,
          )))
        ((ft, fi, fn, fs, fr), (t, i, n, ns, rs), h)
  record_effect-Ends l s d₀ d ts (logs_relayer_state r)
        ((ft, fi, fn, fs, fr), (t, i, n, ns, rs), h) =
      let line = relayer_state_line ts r in
      guarded d₀ _ _ l _ _ (s, d) fr
        (Ends-and_then
          (write_log opens r.relayer_id (relayer_state_file r.relayer_id) line s.relayer_state_logs
            d)
          _ _ _
          (write_log-Ends opens all_open relayer_file r.relayer_id line s.relayer_state_logs d rs)
          (λ (logs, d') (o', w). (
            (ft, fi, fn, fs, fr),
            (t, i, n, ns, o'),
            Stores-Writes (relayer_file r.relayer_id) line l _ d₀ d d'
                (relayer_states-Appends l r.relayer_id line) w h,
          )))
        ((ft, fi, fn, fs, fr), (t, i, n, ns, rs), h)

  record_all-Ends :
      (l : DetailedLogger) (s : Streams) (d₀ d : Disk) (es : List (Bytes × Effect))
      → Agrees l d₀ (s, d)
      → Ends (record_all opens s d es) (Agrees (perform_all l es) d₀)
  unfolding record_all perform_all
  record_all-Ends l s d₀ d [] a = a
  record_all-Ends l s d₀ d ((ts, e) ∷ es) a =
      Ends-and_then (record_effect opens s d ts e) _ _ _ (record_effect-Ends l s d₀ d ts e a)
        (λ (s', d') a'. record_all-Ends (perform l ts e) s' d₀ d' es a')

  pub new_streams-Ends : (d : Disk) → Ends (new_streams opens d) (Agrees new_detailed_logger d)
  unfolding new_streams file_name
  new_streams-Ends d =
      Ends-and_then (open_stream opens (codes "transactions.jsonl") d) _ _ _
        (open_stream-Ends opens all_open transactions_file d)
        (λ (t, d₁) (ht, same₁).
          Ends-and_then (open_stream opens (codes "ibc_events.jsonl") d₁) _ _ _
            (open_stream-Ends opens all_open ibc_events_file d₁)
            (λ (i, d₂) (hi, same₂).
              Ends-and_then (open_stream opens (codes "network_drops.jsonl") d₂) _ _ _
                (open_stream-Ends opens all_open network_drops_file d₂)
                (λ (n, d₃) (hn, same₃). (
                  (refl, refl, refl, refl, refl),
                  (ht, hi, hn, tt, tt),
                  λ g. new-Stores d d₃ (λ file. same₃ file ∙ (same₂ file ∙ same₁ file)) g,
                ))))

  flush_logs-Same :
      (file : Bytes → LogFile) (logs : Dict LogStream) (d : Disk)
      → AllOpen file logs
      → Same d (flush_logs logs d)
  unfolding flush_logs
  flush_logs-Same file [] d h g = refl
  flush_logs-Same file ((key, s) ∷ logs) d (hs, h) g =
      flush_logs-Same file logs (flush s d).1 h g ∙ flush-Same (file key) s d hs g

  flush_all-Same : (s : Streams) (d : Disk) → AreOpen s → Same d (flush_all s d)
  unfolding flush_all
  flush_all-Same s d (t, i, n, ns, rs) g =
      flush_logs-Same relayer_file s.relayer_state_logs _ rs g
      ∙ (flush_logs-Same node_file s.node_state_logs _ ns g
          ∙ (flush-Same network_drops_file s.network_drops_log _ n g
              ∙ (flush-Same ibc_events_file s.ibc_events_log _ i g
                  ∙ flush-Same transactions_file s.transactions_log d t g)))

  -- If every file can be opened, then nothing that is logged throws, and every log file holds, behind
  -- the lines that it had before the coordinator was made, the lines of its log: after any records,
  -- each with the clock's reading at its time, whether `flushAll` is called then or not, and whatever
  -- chains, nodes and relayers are named.
  pub logs_are_stored :
      (d₀ : Disk) (es : List (Bytes × Effect))
      → Ends (and_then (new_streams opens d₀) (λ (s, d). record_all opens s d es)) (λ (s, d).
        (g : LogFile)
        → (content (file_name g) d
            ≡ content (file_name g) d₀ ++ log_lines (perform_all new_detailed_logger es) g)
          × (content (file_name g) (flush_all s d) ≡ content (file_name g) d))
  logs_are_stored d₀ es =
      Ends-and_then (new_streams opens d₀) _ _ _ (new_streams-Ends d₀) (λ (s, d) a.
        Ends-map _ (Agrees (perform_all new_detailed_logger es) d₀) _
          (record_all-Ends new_detailed_logger s d₀ d es a)
          (λ (s', d') (f, o, h) g. (h g, flush_all-Same s' d' o (file_name g))))
