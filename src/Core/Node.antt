-- ===== src/Core/Node.antt =====
-- src/core/Node.h and Node.cpp: a node's inbox and the loop of its thread. The chain that the node
-- refers to, and the transport, are passed in and returned. An exception that leaves `runLoop` ends
-- the thread, and with it the program.
pub mod TxText
pub mod Rounds
pub mod Sound
use interchain_communication.Prelude.{
  ℕ, ◌+◌, ◌-◌, Bool, true, false, List, [], ◌∷◌, ◌++◌, Option, none, some, Bytes, codes, String,
  if◌then◌else◌, drop, ℤ,
}
use interchain_communication.Util.Error.{
  Exception, bad_number, endpoint_taken, Outcome, returns, throws, Status, status, ErrorCode, is_ok,
}
use interchain_communication.Util.Queue.{
  ConcurrentQueue, empty_queue, push, wait_pop, is_ready, close,
}
use interchain_communication.Util.Decimal.{to_string, print_int, stoi}
use interchain_communication.Ibc.Types.{
  IbcPacket, IbcPacketType, data_packet, ack, deserialize, pipe,
}
use interchain_communication.Core.Transaction
use interchain_communication.Core.Transaction.{Transaction}
use interchain_communication.Core.Mempool
use interchain_communication.Core.Block.{Block}
use interchain_communication.Core.NodeMessage.{
  NodeMessage, NodeMessageKind, block, transaction, ibc, find, after, substr,
  serialize_node_message, deserialize_node_message,
}
use interchain_communication.Core.Effect.{
  Effect, inc_counter, logs_transaction, submitted, received, logs_node_state, detailed,
}
use interchain_communication.Core.Blockchain.{
  Blockchain, on_ibc_packet, on_ibc_ack, head, register_node_id,
}
use interchain_communication.Net.Transport.{Transport, register_endpoint, unregister_endpoint}

pub record Node : Type 0 where
  pub node_id : Bytes
  pub address : Bytes
  pub consensus_name : Option String
  pub has_logger : Bool
  pub running : Bool
  pub inbox : ConcurrentQueue NodeMessage

-- `running_.exchange(true)`, and the thread is there.
unfoldable pub start : Node → Node × Status
start n =
    if n.running
    then (n, status ErrorCode.invalid_state "Node already running")
    else (record n { running = true }, status ErrorCode.ok "")

unfoldable pub stop : Node → Node
stop n = if n.running then record n { running = false; inbox = close n.inbox } else n

module _ {H : Type 0} where
  -- The constructor behind its call of `registerEndpoint`; `deliver` stands for the node's `onBytes`.
  unfoldable pub register_node :
      Node → Blockchain → Transport H × Status → Outcome (Node × Blockchain × Transport H)
  register_node n bc (t, s) =
      if is_ok s then returns (n, register_node_id bc n.node_id, t) else throws endpoint_taken

  unfoldable pub new_node :
      Bytes
      → Blockchain
      → Option String
      → Transport H
      → Bytes
      → Bool
      → H
      → Outcome (Node × Blockchain × Transport H)
  new_node node_id bc consensus_name t address has_logger deliver =
      register_node
        (record {
          node_id = node_id;
          address = address;
          consensus_name = consensus_name;
          has_logger = has_logger;
          running = false;
          inbox = empty_queue;
        })
        bc (register_endpoint t address deliver)

  -- The destructor.
  unfoldable pub delete_node : Node → Transport H → Node × Transport H
  delete_node n t = (stop n, (unregister_endpoint t n.address).0)

-- from|to|payload|type|tx_id, with nothing escaped.
unfoldable pub encode_tx : Transaction → Bytes
encode_tx tx =
    tx.from
    ++ (pipe
        ∷ (tx.to
            ++ (pipe
                ∷ (tx.payload
                    ++ (pipe ∷ (print_int (Transaction.to_int tx.type) ++ (pipe ∷ tx.tx_id)))))))

-- The chain, the bytes that are sent to the node's own address, and the records.
unfoldable pub submit_transaction :
    Node → Blockchain → Transaction → Blockchain × Bytes × List Effect
submit_transaction n bc tx = (
  record bc { mempool = Mempool.add bc.mempool tx },
  serialize_node_message
      (record { from_address = n.address; kind = transaction; bytes = encode_tx tx }),
  detailed n.has_logger (logs_transaction submitted tx bc.chain_id n.node_id)
      ++ inc_counter "tx_submitted" ∷ [],
)

-- Every exception is caught, that of a closed inbox too.
unfoldable pub enqueue : Node → Outcome (ConcurrentQueue NodeMessage) → Node
enqueue n (returns q) = record n { inbox = q }
enqueue n (throws e) = n

unfoldable pub on_message : Node → Outcome NodeMessage → Node
on_message n (returns m) = enqueue n (push n.inbox m)
on_message n (throws e) = n

unfoldable pub on_bytes : Node → Bytes → Node
on_bytes n bytes = on_message n (deserialize_node_message bytes)

-- The transaction whose type `stoi` has read, or the exception that it threw.
unfoldable pub with_type : Option ℤ → Transaction → Outcome (Option Transaction)
with_type none tx = throws bad_number
with_type (some k) tx = returns (some (record tx { type = Transaction.of_int k }))

-- `none` is a malformed message.
unfoldable pub cut_tx :
    Bytes → Option ℕ → Option ℕ → Option ℕ → Option ℕ → Outcome (Option Transaction)
cut_tx s (some p1) (some p2) (some p3) (some p4) =
    with_type (stoi (substr s (p3 + 1) (p4 - p3 - 1))) (record {
      from = substr s 0 p1;
      to = substr s (p1 + 1) (p2 - p1 - 1);
      payload = substr s (p2 + 1) (p3 - p2 - 1);
      type = Transaction.unknown;
      tx_id = drop (p4 + 1) s;
    })
cut_tx s _ _ _ _ = returns none

unfoldable pub decode_tx : Bytes → Outcome (Option Transaction)
decode_tx s =
    let p1 = find s pipe 0 in
    let p2 = find s pipe (after p1) in
    let p3 = find s pipe (after p2) in let p4 = find s pipe (after p3) in cut_tx s p1 p2 p3 p4

-- `consensus_ ? consensus_->name() : "none"`.
abbrev consensus_state_of : Option String → String
consensus_state_of none = "none"
consensus_state_of (some name) = name

-- The state records of the node, if the chain has a head.
unfoldable pub snapshot_of : Node → Blockchain → Option Block → List Effect
snapshot_of n bc none = []
snapshot_of n bc (some b) = detailed n.has_logger (
    logs_node_state (record {
      chain_id = bc.chain_id;
      node_id = n.node_id;
      block_height = b.header.height;
      block_hash = codes "hash_" ++ to_string b.header.height;
      mempool_size = Mempool.size bc.mempool;
      consensus_state = consensus_state_of n.consensus_name;
    }))

unfoldable pub snapshot_state : Node → Blockchain → List Effect
snapshot_state n bc = snapshot_of n bc (head bc)

-- The case `NodeMessageKind::Transaction`: its `stoi` is in no `try`.
unfoldable pub receive_tx :
    Node → Blockchain → Outcome (Option Transaction) → Outcome (Blockchain × List Effect)
receive_tx n bc (throws e) = throws e
receive_tx n bc (returns none) = returns (bc, [])
receive_tx n bc (returns (some tx)) =
    let bc' : Blockchain = record bc { mempool = Mempool.add bc.mempool tx } in
    returns (
      bc',
      inc_counter "tx_received"
          ∷ (detailed n.has_logger (logs_transaction received tx bc.chain_id n.node_id)
              ++ snapshot_state n bc'),
    )

-- A packet by its type; a type with no name is passed over.
unfoldable pub dispatch_packet : Blockchain → IbcPacket → IbcPacketType → Blockchain × List Effect
dispatch_packet bc p data_packet =
    let (bc', s, es) = on_ibc_packet bc p in
    (
      bc',
      es ++ inc_counter (if is_ok s then "ibc_packets_processed" else "ibc_packets_failed") ∷ [],
    )
dispatch_packet bc p ack =
    let (s, es) = on_ibc_ack bc p in
    (bc, es ++ inc_counter (if is_ok s then "ibc_acks_processed" else "ibc_acks_failed") ∷ [])
dispatch_packet bc p (IbcPacketType.other z) = (bc, [])

-- The case `NodeMessageKind::IBC`.
unfoldable pub receive_ibc : Node → Blockchain → Outcome IbcPacket → Blockchain × List Effect
receive_ibc n bc (throws e) = (bc, inc_counter "ibc_deserialization_errors" ∷ [])
receive_ibc n bc (returns p) =
    let (bc', es) = dispatch_packet bc p p.type in (bc', es ++ snapshot_state n bc')

-- The `switch` of the loop. Blocks and unknown kinds only write a log line.
unfoldable pub handle_kind :
    Node → Blockchain → NodeMessage → NodeMessageKind → Outcome (Blockchain × List Effect)
handle_kind n bc m transaction = receive_tx n bc (decode_tx m.bytes)
handle_kind n bc m block = returns (bc, [])
handle_kind n bc m ibc = returns (receive_ibc n bc (deserialize m.bytes))
handle_kind n bc m _ = returns (bc, [])

unfoldable pub handle_message : Node → Blockchain → NodeMessage → Outcome (Blockchain × List Effect)
handle_message n bc m = handle_kind n bc m m.kind

-- One round of `runLoop`: the thread waits, leaves the loop, goes on, or dies of an exception.
pub data Round : Type 0 where
  waits exits : Round
  goes_on : Node → Blockchain → List Effect → Round
  dies : Exception → Round

unfoldable pub finish_round : Node → Outcome (Blockchain × List Effect) → Round
finish_round n (returns (bc, es)) = goes_on n bc es
finish_round n (throws e) = dies e

unfoldable pub take_message :
    Node → Blockchain → ConcurrentQueue NodeMessage × Outcome NodeMessage → Round
take_message n bc (q, throws e) = exits
take_message n bc (q, returns m) =
    finish_round (record n { inbox = q }) (handle_message (record n { inbox = q }) bc m)

unfoldable pub run_round : Node → Blockchain → Round
run_round n bc =
    if n.running
    then (if is_ready n.inbox then take_message n bc (wait_pop n.inbox) else waits)
    else exits
