-- ===== src/Util/DetailedLogger/Whole.antt =====
-- The lines of the logs when the program records what it does (src/util/DetailedLogger.cpp).
use interchain_communication.Prelude.{
  List, [], ◌∷◌, ◌++◌, Option, some, Bytes, bytes_eq, Dict, lookup, insert, if_keeps, All,
  All-append,
}
use interchain_communication.Util.Json.Reader.{IsLine}
use interchain_communication.Core.Effect.{
  Effect, publishes, inc_counter, logs_ibc_event, logs_transaction, logs_network_drop,
  logs_node_state, logs_relayer_state,
}
use interchain_communication.Util.DetailedLogger.{
  DetailedLogger, Lines, lines_of, log_transaction_event, log_ibc_event, log_network_drop, write,
  log_node_state, log_relayer_state,
}
use interchain_communication.Util.DetailedLogger.Lines.{
  perform, perform_all, IsWhole, transaction_line-IsLine, ibc_event_line-IsLine,
  network_drop_line-IsLine, node_state_line-IsLine, relayer_state_line-IsLine,
}

abbrev AllWhole : Dict Lines → Type 0
AllWhole = All (λ entry. All IsLine entry.1)

one_more :
    (lines : Lines) (line : Bytes)
    → All IsLine lines
    → IsLine line
    → All IsLine (lines ++ line ∷ [])
one_more lines line h one = All-append IsLine lines (line ∷ []) h (one, tt)

insert-AllWhole :
    (key : Bytes) (lines : Lines) (logs : Dict Lines)
    → All IsLine lines
    → AllWhole logs
    → AllWhole (insert key lines logs)
unfolding insert
insert-AllWhole key lines [] h hs = (h, tt)
insert-AllWhole key lines ((j, v) ∷ logs) h (hv, hs) =
    if_keeps AllWhole (bytes_eq j key) ((key, lines) ∷ logs) ((j, v) ∷ insert key lines logs)
      (h, hs) (hv, insert-AllWhole key lines logs h hs)

lookup-AllWhole :
    (key : Bytes) (logs : Dict Lines) → AllWhole logs → All IsLine (lines_of (lookup key logs))
unfolding lookup
lookup-AllWhole key [] h = tt
lookup-AllWhole key ((j, v) ∷ logs) (hv, hs) =
    if_keeps (λ (o : Option Lines). All IsLine (lines_of o)) (bytes_eq j key) (some v)
      (lookup key logs) hv (lookup-AllWhole key logs hs)

write-AllWhole :
    (key line : Bytes) (logs : Dict Lines)
    → IsLine line
    → AllWhole logs
    → AllWhole (write key line logs)
unfolding write
write-AllWhole key line logs one h =
    insert-AllWhole key _ logs (one_more _ line (lookup-AllWhole key logs h) one) h

perform-IsWhole :
    (l : DetailedLogger) (ts : Bytes) (e : Effect) → IsWhole l → IsWhole (perform l ts e)
unfolding perform log_transaction_event log_ibc_event log_network_drop log_node_state
    log_relayer_state
perform-IsWhole l ts (publishes e) w = w
perform-IsWhole l ts (inc_counter name) w = w
perform-IsWhole l ts (logs_ibc_event event p relayer_id) w =
    if_keeps IsWhole l.ibc_events_enabled _ l
      (record {
        transactions = w.transactions;
        ibc_events = one_more _ _ w.ibc_events (ibc_event_line-IsLine ts event p relayer_id);
        network_drops = w.network_drops;
        node_states = w.node_states;
        relayer_states = w.relayer_states;
      })
      w
perform-IsWhole l ts (logs_transaction event tx chain_id node_id) w =
    if_keeps IsWhole l.transactions_enabled _ l
      (record {
        transactions =
            one_more _ _ w.transactions (transaction_line-IsLine ts event tx chain_id node_id 0);
        ibc_events = w.ibc_events;
        network_drops = w.network_drops;
        node_states = w.node_states;
        relayer_states = w.relayer_states;
      })
      w
perform-IsWhole l ts (logs_network_drop from to size) w =
    if_keeps IsWhole l.network_drops_enabled _ l
      (record {
        transactions = w.transactions;
        ibc_events = w.ibc_events;
        network_drops = one_more _ _ w.network_drops (network_drop_line-IsLine ts from to _ size _);
        node_states = w.node_states;
        relayer_states = w.relayer_states;
      })
      w
perform-IsWhole l ts (logs_node_state n) w =
    if_keeps IsWhole l.node_state_enabled _ l
      (record {
        transactions = w.transactions;
        ibc_events = w.ibc_events;
        network_drops = w.network_drops;
        node_states =
            write-AllWhole _ _ l.node_state_logs (node_state_line-IsLine ts n []) w.node_states;
        relayer_states = w.relayer_states;
      })
      w
perform-IsWhole l ts (logs_relayer_state r) w =
    if_keeps IsWhole l.relayer_state_enabled _ l
      (record {
        transactions = w.transactions;
        ibc_events = w.ibc_events;
        network_drops = w.network_drops;
        node_states = w.node_states;
        relayer_states =
            write-AllWhole _ _ l.relayer_state_logs (relayer_state_line-IsLine ts r)
              w.relayer_states;
      })
      w

-- Whatever chains, nodes, relayers and the transport record, in any order, at any times and whatever
-- bytes their packets, transactions and names hold, each record is at most one line of its log: no
-- line of any log holds a line feed or another control character.
pub perform_all-IsWhole :
    (l : DetailedLogger) (es : List (Bytes × Effect)) → IsWhole l → IsWhole (perform_all l es)
unfolding perform_all
perform_all-IsWhole l [] w = w
perform_all-IsWhole l ((ts, e) ∷ es) w =
    perform_all-IsWhole (perform l ts e) es (perform-IsWhole l ts e w)
