-- ===== src/Core/Node/Rounds.antt =====
-- Rounds of a node's loop: what becomes of a message in the inbox, and of a submitted transaction.
use interchain_communication.Prelude.{
  ◌≡◌, refl, ap, ◌∙◌, true, false, List, [], ◌∷◌, ◌++◌, append_assoc, none, Bytes, Lacks,
  if◌then◌else◌, arith,
}
use interchain_communication.Util.Error.{bad_number, is_ok}
use interchain_communication.Util.Queue.{push, wait_pop, is_ready}
use interchain_communication.Util.Decimal.{stoi}
use interchain_communication.Util.Decimal.RoundTrip.{IsInt32}
use interchain_communication.Ibc.Types.{IbcPacket, IsPacket, data_packet, serialize, pipe}
use interchain_communication.Ibc.Types.RoundTrip.{deserialize-serialize}
use interchain_communication.Core.Transaction
use interchain_communication.Core.Transaction.{Transaction}
use interchain_communication.Core.Mempool
use interchain_communication.Core.NodeMessage
use interchain_communication.Core.NodeMessage.{
  NodeMessage, block, transaction, ibc, serialize_node_message, deserialize_node_message,
}
use interchain_communication.Core.NodeMessage.RoundTrip.{deserialize_node_message-serialize}
use interchain_communication.Core.Effect.{Effect, inc_counter, detailed, logs_transaction, received}
use interchain_communication.Core.Blockchain.{Blockchain, on_ibc_packet}
use interchain_communication.Core.Node.{
  Node, encode_tx, decode_tx, submit_transaction, enqueue, on_message, on_bytes, snapshot_state,
  receive_tx, dispatch_packet, receive_ibc, handle_kind, handle_message, goes_on, dies,
  finish_round, take_message, run_round,
}
use interchain_communication.Core.Node.TxText.{decode_tx-encode_tx, decode_tx_shifted}

-- The node once its inbox holds `ms`.
abbrev pub holding : Node → List NodeMessage → Node
holding n ms = record n { inbox = record n.inbox { items = ms } }

-- Bytes that a message was written to arrive behind the messages of an open inbox.
pub on_bytes-serialize :
    (n : Node) (m : NodeMessage)
    → n.inbox.is_closed ≡ false
    → Lacks pipe m.from_address
    → NodeMessage.of_int (NodeMessage.to_int m.kind) ≡ m.kind
    → IsInt32 (NodeMessage.to_int m.kind)
    → on_bytes n (serialize_node_message m) ≡ holding n (n.inbox.items ++ m ∷ [])
unfolding on_bytes on_message enqueue push
on_bytes-serialize n m open_inbox h canonical fits =
    rw (deserialize_node_message-serialize m h canonical fits, open_inbox)

-- A round takes the oldest message.
run_round-holding :
    (n : Node) (bc : Blockchain) (m : NodeMessage) (ms : List NodeMessage)
    → n.running ≡ true
    → run_round (holding n (m ∷ ms)) bc
      ≡ finish_round (holding n ms) (handle_message (holding n ms) bc m)
unfolding run_round take_message wait_pop is_ready
run_round-holding n bc m ms running = rw running

-- A round over a packet hands it to the chain, and over an acknowledgement likewise.
pub run_round_packet :
    (n : Node) (bc : Blockchain) (p : IbcPacket) (from : Bytes) (ms : List NodeMessage)
    → n.running ≡ true
    → IsPacket p
    → p.type ≡ data_packet
    → let m : NodeMessage = record { from_address = from; kind = ibc; bytes = serialize p } in
      let (bc', s, es) = on_ibc_packet bc p in
      run_round (holding n (m ∷ ms)) bc
      ≡ goes_on (holding n ms) bc' (
          (es
            ++ inc_counter (if is_ok s then "ibc_packets_processed" else "ibc_packets_failed") ∷ [])
          ++ snapshot_state (holding n ms) bc')
unfolding handle_message handle_kind receive_ibc dispatch_packet finish_round
run_round_packet n bc p from ms running v e =
    run_round-holding n bc _ ms running ∙ rw (deserialize-serialize p v, e)

-- The message in which a node sends a transaction to itself.
abbrev tx_message : Node → Transaction → NodeMessage
tx_message n tx = record { from_address = n.address; kind = transaction; bytes = encode_tx tx }

on_bytes-submit_transaction :
    (n : Node) (bc : Blockchain) (tx : Transaction)
    → n.inbox.items ≡ []
    → n.inbox.is_closed ≡ false
    → Lacks pipe n.address
    → on_bytes n (submit_transaction n bc tx).1 ≡ holding n (tx_message n tx ∷ [])
unfolding submit_transaction NodeMessage.of_int NodeMessage.to_int
on_bytes-submit_transaction n bc tx no_items open_inbox h =
    on_bytes-serialize n (tx_message n tx) open_inbox h refl (omega arith)
    ∙ ap (λ ms. holding n (ms ++ tx_message n tx ∷ [])) no_items

abbrev submitted_chain : Blockchain → Transaction → Blockchain
submitted_chain bc tx = record bc { mempool = bc.mempool ++ tx ∷ [] }

-- The round that follows a submission, once the message is decoded.
submit_round :
    (n : Node) (bc : Blockchain) (tx : Transaction)
    → n.running ≡ true
    → n.inbox.items ≡ []
    → n.inbox.is_closed ≡ false
    → Lacks pipe n.address
    → let (bc', sent, es) = submit_transaction n bc tx in
      run_round (on_bytes n sent) bc'
      ≡ finish_round
          (holding n [])
          (receive_tx (holding n []) (submitted_chain bc tx) (decode_tx (encode_tx tx)))
submit_round n bc tx running no_items open_inbox h =
    ap (λ k. run_round k (submit_transaction n bc tx).0)
      (on_bytes-submit_transaction n bc tx no_items open_inbox h)
    ∙ run_round-holding n (submit_transaction n bc tx).0 (tx_message n tx) [] running
    ∙ unfold submit_transaction handle_message handle_kind Mempool.add in refl

abbrev received_effects : Node → Blockchain → Blockchain → Transaction → List Effect
received_effects n bc bc' tx =
    inc_counter "tx_received"
    ∷ (detailed n.has_logger (logs_transaction received tx bc.chain_id n.node_id)
        ++ snapshot_state n bc')

-- A transaction whose fields hold no separator enters the chain's mempool twice: once when it is
-- submitted, and once when the node's message to itself arrives.
pub submitted_twice :
    (n : Node) (bc : Blockchain) (tx : Transaction)
    → n.running ≡ true
    → n.inbox.items ≡ []
    → n.inbox.is_closed ≡ false
    → Lacks pipe n.address
    → Lacks pipe tx.from
    → Lacks pipe tx.to
    → Lacks pipe tx.payload
    → Transaction.of_int (Transaction.to_int tx.type) ≡ tx.type
    → IsInt32 (Transaction.to_int tx.type)
    → let (bc', sent, es) = submit_transaction n bc tx in
      (fs : List Effect) × (run_round (on_bytes n sent) bc'
        ≡ goes_on (holding n []) (record bc { mempool = bc.mempool ++ tx ∷ tx ∷ [] }) fs)
unfolding receive_tx finish_round Mempool.add
submitted_twice n bc tx running no_items open_inbox ha hf ht hp canonical fits = (
  received_effects (holding n []) bc (record bc { mempool = bc.mempool ++ tx ∷ tx ∷ [] }) tx,
  submit_round n bc tx running no_items open_inbox ha
      ∙ rw (decode_tx-encode_tx tx hf ht hp canonical fits) (rw append_assoc),
)

-- A payload with one separator, behind which no number starts, ends the program: the round that
-- reads the transaction dies of the exception of `std::stoi`.
pub submitted_payload_kills :
    (n : Node) (bc : Blockchain) (tx : Transaction) (before behind : Bytes)
    → n.running ≡ true
    → n.inbox.items ≡ []
    → n.inbox.is_closed ≡ false
    → Lacks pipe n.address
    → tx.payload ≡ before ++ (pipe ∷ behind)
    → Lacks pipe tx.from
    → Lacks pipe tx.to
    → Lacks pipe before
    → Lacks pipe behind
    → stoi behind ≡ none
    → let (bc', sent, es) = submit_transaction n bc tx in
      run_round (on_bytes n sent) bc' ≡ dies bad_number
unfolding receive_tx finish_round
submitted_payload_kills n bc tx before behind running no_items open_inbox ha ep hf ht hb hh unread =
    submit_round n bc tx running no_items open_inbox ha
    ∙ rw (decode_tx_shifted tx before behind ep hf ht hb hh unread)
