-- ===== src/Tests/Chains.antt =====
-- Chains at concrete inputs.
use interchain_communication.Prelude.{
  arith, ◌≡◌, refl, true, false, List, [], ◌∷◌, ◌++◌, some, Bytes, codes, lookup, ◌+◌, ◌==◌, incr64,
  length, min, if◌then◌else◌,
}
use interchain_communication.Util.Error.{is_ok}
use interchain_communication.Ibc.Types.{IbcPacket, data_packet}
use interchain_communication.Ibc.Channel.{new_channel, open_channel, accept_packet}
use interchain_communication.Core.Transaction
use interchain_communication.Core.Transaction.{Transaction}
use interchain_communication.Core.Mempool.{drain, size, add_all, drain-add_all}
use interchain_communication.Core.Block.{Block}
use interchain_communication.Core.Blockchain.{
  Blockchain, new_blockchain, make_channel_key, send_ibc, send_effects, on_ibc_packet,
  close_ibc_channel, head, append_block, append_effects, open_stored, get_or_create_channel,
}
use interchain_communication.Core.Blockchain.Channels.{IsSound, Updated, bumped_at}
use interchain_communication.Core.Blockchain.Sending.{packet_of, send_ibc_lem}
use interchain_communication.Core.Blockchain.Receiving.{is_next, behind}
use interchain_communication.Core.Blockchain.Receipt.{Answers, on_ibc_packet-Answers}
use interchain_communication.Core.Blockchain.Reach.{
  closes, sends, Reach, here, next, reachable-IsSound, close_ibc_channel_stops_nothing,
}
use interchain_communication.Core.Blockchain.Replay.{never_received_again}
use interchain_communication.Core.Blockchain.Ledger.{
  IsLedger, append_block_lem, new_blockchain-IsLedger,
}

abbrev chain_a : Bytes
chain_a = codes "chain-A"

abbrev chain_b : Bytes
chain_b = codes "chain-B"

abbrev port : Bytes
port = codes "port-A"

abbrev chan : Bytes
chan = codes "channel-A"

abbrev fresh_chain : Blockchain
fresh_chain = new_blockchain chain_a true

abbrev body : Bytes
body = codes "transfer:100"

abbrev sent_one : Blockchain
sent_one = (send_ibc fresh_chain port chan chain_b port chan body).0

sent_one-Reach : Reach fresh_chain (close_ibc_channel sent_one port chan).0
sent_one-Reach = next (next here (sends port chan chain_b port chan body)) (closes port chan)

reachable-IsSound_example : IsSound (close_ibc_channel sent_one port chan).0
reachable-IsSound_example = reachable-IsSound chain_a true sent_one-Reach

fresh_chain-IsSound : IsSound fresh_chain
fresh_chain-IsSound = reachable-IsSound chain_a true here

send_ibc_lem_example :
    let p = packet_of fresh_chain port chan chain_b port chan body in
    let (bc', r, es) = send_ibc fresh_chain port chan chain_b port chan body in
    (r.value ≡ some p)
    × (is_ok r.status ≡ true)
    × (es ≡ send_effects bc' p)
    × Updated fresh_chain (make_channel_key port chan) (bumped_at fresh_chain port chan) bc'
send_ibc_lem_example = send_ibc_lem fresh_chain port chan chain_b port chan body fresh_chain-IsSound

abbrev first_packet : IbcPacket
first_packet = record {
  type = data_packet;
  src_chain = chain_b;
  dst_chain = chain_a;
  src_port = port;
  src_channel = chan;
  dst_port = port;
  dst_channel = chan;
  sequence = 1;
  payload = body;
}

on_ibc_packet-Answers_example :
    let (bc', s, es) = on_ibc_packet fresh_chain first_packet in
    (is_ok s ≡ is_next fresh_chain first_packet)
    × Answers fresh_chain first_packet es (is_next fresh_chain first_packet)
    × Updated fresh_chain
        (make_channel_key port chan)
        (behind fresh_chain first_packet (is_next fresh_chain first_packet))
        bc'
on_ibc_packet-Answers_example = on_ibc_packet-Answers fresh_chain first_packet fresh_chain-IsSound

first_packet-received : is_ok (on_ibc_packet fresh_chain first_packet).1 ≡ true
unfolding on_ibc_packet open_stored get_or_create_channel open_channel accept_packet new_channel
    new_blockchain lookup
first_packet-received = refl

-- The packet arrives again after the chain has sent one on the same channel.
abbrev later : Blockchain
later =
    (send_ibc (on_ibc_packet fresh_chain first_packet).0 first_packet.dst_port
      first_packet.dst_channel chain_b port chan body).0

never_received_again_example :
    (is_ok (on_ibc_packet later first_packet).1 ≡ false)
    × ((on_ibc_packet later first_packet).2 ≡ [])
never_received_again_example =
    never_received_again fresh_chain first_packet fresh_chain-IsSound first_packet-received
      (next here (sends first_packet.dst_port first_packet.dst_channel chain_b port chan body))
      (omega arith)

close_ibc_channel_stops_nothing_example :
    let bc = (close_ibc_channel sent_one port chan).0 in
    let after_close = (close_ibc_channel bc port chan).0 in
    ((send_ibc after_close port chan chain_b port chan body).1.value
      ≡ (send_ibc bc port chan chain_b port chan body).1.value)
    × (is_ok (send_ibc after_close port chan chain_b port chan body).1.status ≡ true)
    × (is_ok (on_ibc_packet after_close first_packet).1 ≡ is_ok (on_ibc_packet bc first_packet).1)
close_ibc_channel_stops_nothing_example =
    close_ibc_channel_stops_nothing chain_a true port chan chain_b port chan body first_packet
      sent_one-Reach

abbrev block_one : Block
block_one = record {
  header = record {
    chain_id = chain_a;
    height = 1;
    prev_hash = [];
    timestamp = 5;
    state_root = codes "0";
  };
  txs = [];
  extra = [];
}

append_block_lem_example :
    (last : Block) × (head fresh_chain ≡ some last)
    × (let (bc', s, es) = append_block fresh_chain block_one in
        let fits = block_one.header.height == incr64 last.header.height in
        (is_ok s ≡ fits)
        × (es ≡ (if fits then append_effects fresh_chain block_one else []))
        × (head bc' ≡ some (if fits then block_one else last))
        × (bc'.chain ≡ (if fits then fresh_chain.chain ++ block_one ∷ [] else fresh_chain.chain))
        × IsLedger bc')
append_block_lem_example =
    append_block_lem fresh_chain block_one (new_blockchain-IsLedger chain_a true)

abbrev tx : Bytes → Transaction
tx id = record {
  from = codes "u";
  to = codes "v";
  payload = codes "pay";
  type = Transaction.regular;
  tx_id = id;
}

abbrev two_txs : List Transaction
two_txs = tx (codes "1") ∷ tx (codes "2") ∷ []

drain-add_all_example :
    ((drain (add_all [] two_txs) 1).1 ++ (drain (add_all [] two_txs) 1).0 ≡ two_txs)
    × (length (drain (add_all [] two_txs) 1).1 ≡ min 1 (size [] + 2))
drain-add_all_example = drain-add_all [] two_txs 1

-- A port that holds a colon shares its key, and so its channel, with another pair.
keys_collide :
    make_channel_key (codes "p:q") (codes "c") ≡ make_channel_key (codes "p") (codes "q:c")
unfolding make_channel_key
keys_collide = refl
