-- ===== src/Tests/Disks.antt =====
-- The log files at concrete inputs.
use interchain_communication.Prelude.{Bytes, ◌≡◌, refl, true, false, List, [], ◌∷◌, ◌++◌, codes}
use interchain_communication.Util.Error.{throws, open_failed}
use interchain_communication.Util.DetailedLogger.{new_detailed_logger}
use interchain_communication.Util.DetailedLogger.Lines.{perform_all}
use interchain_communication.Util.DetailedLogger.Streams.{
  Disk, and_then, open_stream, new_streams, record_all, flush_all,
}
use interchain_communication.Util.DetailedLogger.Files.{LogFile, file_name, log_lines, content}
use interchain_communication.Util.DetailedLogger.Stored.{Ends}
use interchain_communication.Util.DetailedLogger.Durable.{logs_are_stored}
use interchain_communication.Core.Effect.{Effect, logs_network_drop, logs_node_state}

-- The lines of an earlier run, and what a node, a relayer and the transport record behind them.
abbrev old : Disk
old = (codes "network_drops.jsonl", codes "{}" ∷ []) ∷ []

abbrev records : List (Bytes × Effect)
records =
    (codes "2024-01-01", logs_network_drop (codes "a") (codes "b") 3)
    ∷ (
      codes "2024-01-02",
      logs_node_state (record {
        chain_id = codes "chain-A";
        node_id = codes "node-0";
        block_height = 1;
        block_hash = codes "ff";
        mempool_size = 0;
        consensus_state = "PoW";
      }),
    )
    ∷ (codes "2024-01-03", logs_network_drop (codes "b") (codes "a") 4)
    ∷ []

logs_are_stored_example :
    Ends
      (and_then (new_streams (λ _. true) old) (λ (s, d). record_all (λ _. true) s d records))
      (λ (s, d).
        (g : LogFile)
        → (content (file_name g) d
            ≡ content (file_name g) old ++ log_lines (perform_all new_detailed_logger records) g)
          × (content (file_name g) (flush_all s d) ≡ content (file_name g) d))
logs_are_stored_example = logs_are_stored (λ _. true) (λ _. refl) old records

-- The first log that cannot be opened ends the run.
read_only : new_streams (λ _. false) old ≡ throws (open_failed (codes "transactions.jsonl"))
unfolding new_streams open_stream
read_only = refl
