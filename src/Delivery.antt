-- ===== src/Delivery.antt =====
-- The path of a packet through the program: `Blockchain::sendIBC` of src/core/Blockchain.cpp
-- publishes it, a relayer of src/ibc/Relayer.cpp hears, queues and sends it, the transport of
-- src/net/Transport.cpp schedules it, and the mailbox node of src/core/Node.cpp reads it and hands it
-- to its chain.
use interchain_communication.Prelude.{
  ℕ, ◌≤◌, ◌≡◌, refl, ap, ◌∙◌, true, false, List, [], ◌∷◌, ◌++◌, some, Bytes, Lacks, lookup, arith,
  if◌then◌else◌,
}
use interchain_communication.Util.Error.{is_ok}
use interchain_communication.Util.Queue.{try_pop}
use interchain_communication.Ibc.Types.{IbcPacket, IsPacket, data_packet, pipe, serialize}
use interchain_communication.Ibc.Relayer
use interchain_communication.Ibc.Relayer.{
  Relayer, Draws, wire, process_packet, process_ack, on_ibc_packet_send_event,
}
use interchain_communication.Ibc.Relayer.Events.{with_packet, hears_packet, relay_packet_lem}
use interchain_communication.Core.NodeMessage
use interchain_communication.Core.EventBus.{Event, ibc_packet_send}
use interchain_communication.Core.Effect.{
  Effect, publishes, inc_counter, detailed, logs_ibc_event, packet_created,
}
use interchain_communication.Core.Blockchain.{Blockchain, send_ibc, send_effects, on_ibc_packet}
use interchain_communication.Core.Blockchain.Channels.{IsSound}
use interchain_communication.Core.Blockchain.Sending.{packet_of, packet_of-IsPacket, send_ibc_lem}
use interchain_communication.Core.Blockchain.Receiving.{is_next, on_ibc_packet_lem}
use interchain_communication.Core.Node
use interchain_communication.Core.Node.{Node, Round, goes_on, on_bytes, snapshot_state}
use interchain_communication.Core.Node.Rounds.{holding, on_bytes-serialize, run_round_packet}
use interchain_communication.Net.Transport.{Transport, has_endpoint, schedule, rate_one}

-- A relayer that runs and has nothing queued, whose name holds no separator, and that knows the
-- mailbox of a chain.
pub record IsIdle (r : Relayer) : Type 0 where
  pub no_packets : r.pending_packets.items ≡ []
  pub no_acks : r.pending_acks.items ≡ []
  pub packets_open : r.pending_packets.is_closed ≡ false
  pub acks_open : r.pending_acks.is_closed ≡ false
  pub plain_name : Lacks pipe r.name

-- A node that runs and has read all its messages.
pub record IsListening (n : Node) : Type 0 where
  pub running : n.running ≡ true
  pub no_messages : n.inbox.items ≡ []
  pub inbox_open : n.inbox.is_closed ≡ false

-- An idle relayer that has one packet queued schedules it in its next round.
round_schedules :
    {H : Type 0} (r : Relayer) (t : Transport H) (p : IbcPacket) (address : Bytes) (u v : Draws)
    (now : ℕ)
    → IsIdle r
    → lookup p.dst_chain r.chain_addr ≡ some address
    → Relayer.should_drop u.route r.route_drop ≡ false
    → has_endpoint t address ≡ true
    → t.params.drop_rate ≤ rate_one
    → (Relayer.run_round (with_packet r p) t u v now).1 ≡ schedule t address (wire r p) now
unfolding Relayer.run_round try_pop process_packet process_ack Relayer.after_packet wire
round_schedules r t p address u v now idle known kept there rate =
    let r1 : Relayer = record r { pending_packets = record r.pending_packets { items = [] } } in
    rw (idle.no_packets, relay_packet_lem r1 t p address u now known kept there rate, idle.no_acks)

-- The mailbox node reads the packet that the relayer wrote, and hands it to its chain.
node_hands_over :
    (n : Node) (bc : Blockchain) (r : Relayer) (p : IbcPacket)
    → IsListening n
    → Lacks pipe r.name
    → IsPacket p
    → p.type ≡ data_packet
    → (es : List Effect) × (Node.run_round (on_bytes n (wire r p)) bc
        ≡ goes_on (holding n []) (on_ibc_packet bc p).0 es)
unfolding wire NodeMessage.of_int NodeMessage.to_int
node_hands_over n bc r p listening plain v e =
    let m : NodeMessage.NodeMessage = record {
      from_address = r.name;
      kind = NodeMessage.ibc;
      bytes = serialize p;
    } in
    let (bc', s, es) = on_ibc_packet bc p in
    (
      (es ++ inc_counter (if is_ok s then "ibc_packets_processed" else "ibc_packets_failed") ∷ [])
          ++ snapshot_state (holding n []) bc',
      ap (λ k. Node.run_round k bc)
            (on_bytes-serialize n m listening.inbox_open plain refl (omega arith)
              ∙ ap (λ ms. holding n (ms ++ m ∷ [])) listening.no_messages)
          ∙ run_round_packet n bc p r.name [] listening.running v e,
    )

-- A packet that a chain sends reaches the chain it is for. Let the relayer be idle and know the
-- mailbox of the receiving chain, the transport have that endpoint and a drop rate of at most 1, and
-- the relayer's route not drop the packet. Then the event that `sendIBC` publishes makes the relayer
-- schedule a message for the mailbox in its next round, and the node that gets this message hands its
-- chain the very packet that `sendIBC` returned; the chain accepts it exactly when its sequence
-- number is the next of the receiving channel.
pub send_ibc_reaches :
    {H : Type 0} (sender receiver : Blockchain) (port chan dst_port dst_chan payload : Bytes)
    (r : Relayer) (t : Transport H) (address : Bytes) (u v : Draws) (now : ℕ) (n : Node)
    → IsSound sender
    → IsSound receiver
    → IsIdle r
    → IsListening n
    → lookup receiver.chain_id r.chain_addr ≡ some address
    → Relayer.should_drop u.route r.route_drop ≡ false
    → has_endpoint t address ≡ true
    → t.params.drop_rate ≤ rate_one
    → let (sender', result, es) =
        send_ibc sender port chan receiver.chain_id dst_port dst_chan payload in
      (p : IbcPacket) × (event : Event) × (others : List Effect) × (result.value ≡ some p)
      × (es ≡ publishes event ∷ others)
      × ((Relayer.run_round (on_ibc_packet_send_event r event).0 t u v now).1
          ≡ schedule t address (wire r p) now)
      × ((fs : List Effect) × (Node.run_round (on_bytes n (wire r p)) receiver
            ≡ goes_on (holding n []) (on_ibc_packet receiver p).0 fs))
      × (is_ok (on_ibc_packet receiver p).1 ≡ is_next receiver p)
unfolding send_effects
send_ibc_reaches sender receiver port chan dst_port dst_chan payload r t address u v now n vs vr
      idle listening known kept there rate =
    let p = packet_of sender port chan receiver.chain_id dst_port dst_chan payload in
    let fits = packet_of-IsPacket sender port chan receiver.chain_id dst_port dst_chan payload vs in
    let (sender', result, es) =
      send_ibc sender port chan receiver.chain_id dst_port dst_chan payload in
    let (made, fine, effects, updated) =
      send_ibc_lem sender port chan receiver.chain_id dst_port dst_chan payload vs in
    let event : Event = record {
      kind = ibc_packet_send;
      chain_id = sender'.chain_id;
      node_id = [];
      detail = serialize p;
    } in
    let heard = hears_packet r event p idle.packets_open refl fits refl in
    (
      p,
      event,
      inc_counter "ibc_packets_sent"
          ∷ detailed sender'.has_logger (logs_ibc_event packet_created p []),
      made,
      effects,
      ap (λ k. (Relayer.run_round k.0 t u v now).1) heard.0
          ∙ round_schedules r t p address u v now idle known kept there rate,
      node_hands_over n receiver r p listening idle.plain_name fits refl,
      (on_ibc_packet_lem receiver p vr).0,
    )
