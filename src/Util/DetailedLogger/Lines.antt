-- ===== src/Util/DetailedLogger/Lines.antt =====
-- What the calls of the program write to the logs (src/util/DetailedLogger.cpp), line by line.
use interchain_communication.Prelude.{
  ℕ, refl, List, [], ◌∷◌, none, Bytes, codes, ◌==◌, if_keeps, All, arith,
}
use interchain_communication.Util.Json.Reader.{IsLine}
use interchain_communication.Ibc.Types.{IbcPacket}
use interchain_communication.Core.Transaction.{Transaction}
use interchain_communication.Core.Effect.{
  TxEventType, IbcEventType, NodeSnapshot, RelayerSnapshot, Effect, publishes, inc_counter,
  logs_ibc_event, logs_transaction, logs_network_drop, logs_node_state, logs_relayer_state,
}
use interchain_communication.Util.DetailedLogger.{
  DetailedLogger, transaction_line, log_transaction_event, ibc_event_line, log_ibc_event,
  network_drop_line, log_network_drop, node_state_line, log_node_state, relayer_state_line,
  log_relayer_state,
}
use interchain_communication.Util.DetailedLogger.Fields.{
  join, text_field-IsLine, count_field-IsLine, optional_field-IsLine, fields-IsLine, braces-IsLine,
}

-- The call of the logger that a record of the other parts stands for, with the arguments that they
-- leave at their defaults.
unfoldable pub perform : DetailedLogger → Bytes → Effect → DetailedLogger
perform l ts (publishes e) = l
perform l ts (inc_counter name) = l
perform l ts (logs_ibc_event event p relayer_id) = log_ibc_event l ts event p relayer_id none
perform l ts (logs_transaction event tx chain_id node_id) =
    log_transaction_event l ts event tx chain_id node_id 0
perform l ts (logs_network_drop from to size) =
    log_network_drop l ts from to (codes "unknown") size (codes "random_drop")
perform l ts (logs_node_state n) = log_node_state l ts n []
perform l ts (logs_relayer_state r) = log_relayer_state l ts r

-- Each record has the reading of the clock at its time.
unfoldable pub perform_all : DetailedLogger → List (Bytes × Effect) → DetailedLogger
perform_all l [] = l
perform_all l ((ts, e) ∷ es) = perform_all (perform l ts e) es

-- Every line of every log is one line.
pub record IsWhole (l : DetailedLogger) : Type 0 where
  pub transactions : All IsLine l.transactions_log
  pub ibc_events : All IsLine l.ibc_events_log
  pub network_drops : All IsLine l.network_drops_log
  pub node_states : All (λ entry. All IsLine entry.1) l.node_state_logs
  pub relayer_states : All (λ entry. All IsLine entry.1) l.relayer_state_logs

pub transaction_line-IsLine :
    (ts : Bytes) (event : TxEventType) (tx : Transaction) (chain_id node_id : Bytes) (height : ℕ)
    → IsLine (transaction_line ts event tx chain_id node_id height)
unfolding transaction_line
transaction_line-IsLine ts event tx chain_id node_id height = braces-IsLine _ (
    join _ _
      (fields-IsLine _ (
        text_field-IsLine "ts" _ refl,
        (
          text_field-IsLine "event" _ refl,
          (
            text_field-IsLine "tx_id" _ refl,
            (
              text_field-IsLine "tx_type" _ refl,
              (
                text_field-IsLine "from" _ refl,
                (text_field-IsLine "to" _ refl, (text_field-IsLine "payload" _ refl, tt)),
              ),
            ),
          ),
        ),
      ))
      (join _ _ (optional_field-IsLine "chain_id" chain_id refl) (
        join _ _ (optional_field-IsLine "node_id" node_id refl) (
          if_keeps IsLine (height == 0) [] _ tt
            (omega arith, count_field-IsLine "block_height" height refl)))))

pub ibc_event_line-IsLine :
    (ts : Bytes) (event : IbcEventType) (p : IbcPacket) (relayer_id : Bytes)
    → IsLine (ibc_event_line ts event p relayer_id none)
unfolding ibc_event_line
ibc_event_line-IsLine ts event p relayer_id = braces-IsLine _ (
    join _ _
      (fields-IsLine _ (
        text_field-IsLine "ts" _ refl,
        (
          text_field-IsLine "event" _ refl,
          (
            text_field-IsLine "src_chain" _ refl,
            (
              text_field-IsLine "dst_chain" _ refl,
              (
                text_field-IsLine "src_port" _ refl,
                (
                  text_field-IsLine "src_channel" _ refl,
                  (
                    text_field-IsLine "dst_port" _ refl,
                    (
                      text_field-IsLine "dst_channel" _ refl,
                      (
                        count_field-IsLine "sequence" p.sequence refl,
                        (text_field-IsLine "payload" _ refl, tt),
                      ),
                    ),
                  ),
                ),
              ),
            ),
          ),
        ),
      ))
      (join _ _ (optional_field-IsLine "relayer_id" relayer_id refl) tt))

pub network_drop_line-IsLine :
    (ts from to message_type : Bytes) (size : ℕ) (reason : Bytes)
    → IsLine (network_drop_line ts from to message_type size reason)
unfolding network_drop_line
network_drop_line-IsLine ts from to message_type size reason = braces-IsLine _ (
    fields-IsLine _ (
      text_field-IsLine "ts" _ refl,
      (
        text_field-IsLine "from" _ refl,
        (
          text_field-IsLine "to" _ refl,
          (
            text_field-IsLine "message_type" _ refl,
            (
              count_field-IsLine "message_size" size refl,
              (text_field-IsLine "drop_reason" _ refl, tt),
            ),
          ),
        ),
      ),
    ))

pub node_state_line-IsLine :
    (ts : Bytes) (n : NodeSnapshot) (additional : Bytes) → IsLine (node_state_line ts n additional)
unfolding node_state_line
node_state_line-IsLine ts n additional = braces-IsLine _ (
    join _ _
      (fields-IsLine _ (
        text_field-IsLine "ts" _ refl,
        (
          text_field-IsLine "chain_id" _ refl,
          (
            text_field-IsLine "node_id" _ refl,
            (
              count_field-IsLine "block_height" n.block_height refl,
              (
                text_field-IsLine "block_hash" _ refl,
                (
                  count_field-IsLine "mempool_size" n.mempool_size refl,
                  (text_field-IsLine "consensus_state" _ refl, tt),
                ),
              ),
            ),
          ),
        ),
      ))
      (optional_field-IsLine "additional" additional refl))

pub relayer_state_line-IsLine :
    (ts : Bytes) (r : RelayerSnapshot) → IsLine (relayer_state_line ts r)
unfolding relayer_state_line
relayer_state_line-IsLine ts r = braces-IsLine _ (
    join _ _
      (fields-IsLine _ (
        text_field-IsLine "ts" _ refl,
        (
          text_field-IsLine "relayer_id" _ refl,
          (
            text_field-IsLine "event_type" _ refl,
            (
              count_field-IsLine "packets_relayed" r.packets_relayed refl,
              (
                count_field-IsLine "acks_relayed" r.acks_relayed refl,
                (count_field-IsLine "failures" r.failures refl, tt),
              ),
            ),
          ),
        ),
      ))
      (optional_field-IsLine "additional" r.additional_data refl))
