-- ===== src/Tests/Nodes.antt =====
-- Nodes, relayers and the path of a packet at concrete inputs.
use interchain_communication.Prelude.{
  ℕ, ◌≡◌, refl, true, false, List, [], ◌∷◌, ◌++◌, none, some, Bytes, codes, lookup, bytes_eq, arith,
}
use interchain_communication.Util.Error.{returns, bad_number, is_ok}
use interchain_communication.Util.Decimal.{stoi}
use interchain_communication.Util.Queue.{empty_queue}
use interchain_communication.Ibc.Types
use interchain_communication.Ibc.Types.{IbcPacket, IsPacket, data_packet, ack, pipe, serialize}
use interchain_communication.Core.Transaction
use interchain_communication.Core.Transaction.{Transaction}
use interchain_communication.Core.NodeMessage
use interchain_communication.Core.NodeMessage.{
  NodeMessage, ibc, serialize_node_message, deserialize_node_message,
}
use interchain_communication.Core.NodeMessage.RoundTrip.{deserialize_node_message-serialize}
use interchain_communication.Core.EventBus.{Event, ibc_packet_send}
use interchain_communication.Core.Effect.{Effect, publishes}
use interchain_communication.Core.Blockchain.{Blockchain, new_blockchain, send_ibc, on_ibc_packet}
use interchain_communication.Core.Blockchain.Reach.{here, reachable-IsSound}
use interchain_communication.Core.Blockchain.Receiving.{is_next}
use interchain_communication.Core.Node
use interchain_communication.Core.Node.{
  Node, Round, goes_on, dies, encode_tx, decode_tx, submit_transaction, on_bytes, snapshot_state,
}
use interchain_communication.Core.Node.TxText.{decode_tx-encode_tx}
use interchain_communication.Core.Node.Rounds.{holding, submitted_twice, submitted_payload_kills}
use interchain_communication.Net.Transport.{Transport, has_endpoint, schedule}
use interchain_communication.Ibc.Relayer
use interchain_communication.Ibc.Relayer.{
  Relayer, Draws, new_relayer, wire, on_ibc_packet_send_event, on_ibc_ack_send_event,
}
use interchain_communication.Ibc.Relayer.Counts.{total, total-run_round}
use interchain_communication.Ibc.Relayer.Events.{with_packet, with_ack}
use interchain_communication.Delivery.{IsIdle, IsListening, send_ibc_reaches}

abbrev message : NodeMessage
message = record { from_address = codes "relayer-0"; kind = ibc; bytes = codes "0|a|b" }

deserialize_node_message-serialize_example :
    deserialize_node_message (serialize_node_message message) ≡ returns message
unfolding NodeMessage.of_int NodeMessage.to_int
deserialize_node_message-serialize_example =
    deserialize_node_message-serialize message (ground arith) refl (omega arith)

abbrev tx : Bytes → Transaction
tx payload = record {
  from = codes "u";
  to = codes "v";
  payload = payload;
  type = Transaction.regular;
  tx_id = codes "tx|1";
}

decode_tx-encode_tx_example :
    decode_tx (encode_tx (tx (codes "pay"))) ≡ returns (some (tx (codes "pay")))
unfolding Transaction.of_int Transaction.to_int
decode_tx-encode_tx_example =
    decode_tx-encode_tx (tx (codes "pay")) (ground arith) (ground arith) (ground arith) refl
      (omega arith)

no_number : stoi (codes "x") ≡ none
unfolding stoi
no_number = refl

abbrev node : Node
node = record {
  node_id = codes "node-0";
  address = codes "chain-A/node-0";
  consensus_name = some "PBFT";
  has_logger = true;
  running = true;
  inbox = record { items = []; is_closed = false };
}

abbrev chain_a : Blockchain
chain_a = new_blockchain (codes "chain-A") true

abbrev chain_b : Blockchain
chain_b = new_blockchain (codes "chain-B") false

abbrev packet : Types.IbcPacketType → IbcPacket
packet type = record {
  type = type;
  src_chain = codes "chain-B";
  dst_chain = codes "chain-A";
  src_port = codes "port-A";
  src_channel = codes "channel-A";
  dst_port = codes "port-A";
  dst_channel = codes "channel-A";
  sequence = 1;
  payload = codes "hello";
}

data-IsPacket : IsPacket (packet data_packet)
unfolding Types.of_int Types.to_int
data-IsPacket = record {
  type_canonical = refl;
  type_fits = omega arith;
  sequence_fits = omega arith;
}

ack-IsPacket : IsPacket (packet ack)
unfolding Types.of_int Types.to_int
ack-IsPacket = record {
  type_canonical = refl;
  type_fits = omega arith;
  sequence_fits = omega arith;
}

submitted_twice_example :
    let (bc', sent, es) = submit_transaction node chain_a (tx (codes "pay")) in
    (fs : List Effect) × (Node.run_round (on_bytes node sent) bc'
      ≡ goes_on
          (holding node [])
          (record chain_a { mempool = chain_a.mempool ++ tx (codes "pay") ∷ tx (codes "pay") ∷ [] })
          fs)
unfolding Transaction.of_int Transaction.to_int
submitted_twice_example =
    submitted_twice node chain_a (tx (codes "pay")) refl refl refl (ground arith) (ground arith)
      (ground arith) (ground arith) refl (omega arith)

submitted_payload_kills_example :
    let (bc', sent, es) = submit_transaction node chain_a (tx (codes "a|x")) in
    Node.run_round (on_bytes node sent) bc' ≡ dies bad_number
submitted_payload_kills_example =
    submitted_payload_kills node chain_a (tx (codes "a|x")) (codes "a") (codes "x") refl refl refl
      (ground arith) refl (ground arith) (ground arith) (ground arith) (ground arith) no_number

abbrev relayer : Relayer
relayer = record (new_relayer (codes "relayer-0") true) {
  chain_addr = (codes "chain-A", codes "chain-A/mailbox") ∷ [];
}

abbrev event : Types.IbcPacketType → Event
event type = record {
  kind = ibc_packet_send;
  chain_id = codes "chain-B";
  node_id = [];
  detail = serialize (packet type);
}

abbrev transport : Transport ℕ
transport = record {
  params = record { latency = 5; drop_rate = 100000 };
  has_logger = false;
  endpoints = (codes "chain-A/mailbox", 7) ∷ [];
  running = true;
  tasks = [];
  pending_count = 0;
  inflight_count = 0;
}

abbrev draws : Draws
draws = record { route = 3; network = 4 }

abbrev loaded : Relayer
loaded = with_ack (with_packet relayer (packet data_packet)) (packet ack)

total-run_round_example : total (Relayer.run_round loaded transport draws draws 10).0 ≡ total loaded
unfolding new_relayer
total-run_round_example =
    total-run_round loaded transport draws draws 10
      (record { packets = omega arith; acks = omega arith; failed = omega arith })

relayer-IsIdle : IsIdle relayer
unfolding new_relayer empty_queue
relayer-IsIdle = record {
  no_packets = refl;
  no_acks = refl;
  packets_open = refl;
  acks_open = refl;
  plain_name = ground arith;
}

node-IsListening : IsListening node
node-IsListening = record { running = refl; no_messages = refl; inbox_open = refl }

send_ibc_reaches_example :
    let (sender', result, es) =
      send_ibc chain_b
        (codes "port-A")
        (codes "channel-A")
        chain_a.chain_id
        (codes "port-A")
        (codes "channel-A")
        (codes "hello") in
    (p : IbcPacket) × (e : Event) × (others : List Effect) × (result.value ≡ some p)
    × (es ≡ publishes e ∷ others)
    × ((Relayer.run_round (on_ibc_packet_send_event relayer e).0 transport draws draws 10).1
        ≡ schedule transport (codes "chain-A/mailbox") (wire relayer p) 10)
    × ((fs : List Effect) × (Node.run_round (on_bytes node (wire relayer p)) chain_a
          ≡ goes_on (holding node []) (on_ibc_packet chain_a p).0 fs))
    × (is_ok (on_ibc_packet chain_a p).1 ≡ is_next chain_a p)
unfolding new_blockchain new_relayer lookup bytes_eq has_endpoint Relayer.should_drop
send_ibc_reaches_example =
    send_ibc_reaches chain_b chain_a (codes "port-A") (codes "channel-A") (codes "port-A")
      (codes "channel-A") (codes "hello") relayer transport (codes "chain-A/mailbox") draws draws 10
      node (reachable-IsSound (codes "chain-B") false here)
      (reachable-IsSound (codes "chain-A") true here) relayer-IsIdle node-IsListening refl refl refl
      (omega arith)
