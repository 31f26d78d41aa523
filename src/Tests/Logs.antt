-- ===== src/Tests/Logs.antt =====
-- The logs, the simulation and block ids at concrete inputs.
use interchain_communication.Prelude.{
  Bytes, ◌≡◌, refl, true, false, List, [], ◌∷◌, ◌++◌, some, codes, bytes_eq, lookup, insert,
}
use interchain_communication.Util.Error.{Outcome, returns, throws}
use interchain_communication.Util.Decimal.{to_string}
use interchain_communication.Util.Json.{escape_json, quote}
use interchain_communication.Util.Json.Reader.{plain, read, read-escape_json}
use interchain_communication.Util.DetailedLogger.{DetailedLogger}
use interchain_communication.Util.DetailedLogger.Lines.{perform_all, IsWhole}
use interchain_communication.Util.DetailedLogger.Whole.{perform_all-IsWhole}
use interchain_communication.Ibc.Types.{IbcPacket, data_packet}
use interchain_communication.Core.Effect.{Effect, logs_ibc_event, packet_created, logs_network_drop}
use interchain_communication.Core.Blockchain.{new_blockchain, register_node_id, has_id}
use interchain_communication.Core.Node.{new_node, register_node}
use interchain_communication.Net.Transport.{new_transport, register_endpoint, has_endpoint}
use interchain_communication.Consensus.Factory.{ChainConfig, pbft, make}
use interchain_communication.Sim.Controller.{
  Simulation, new_simulation, init_chain, add_chain, add_nodes, add_node, push_node, node_address,
}

read-escape_json_example :
    read plain (escape_json (codes "a\n\"b\\") ++ quote ∷ codes ",")
    ≡ some (codes "a\n\"b\\", codes ",")
read-escape_json_example = read-escape_json (codes "a\n\"b\\") (codes ",")

abbrev logger : DetailedLogger
logger = record {
  transactions_log = [];
  ibc_events_log = [];
  network_drops_log = [];
  node_state_logs = [];
  relayer_state_logs = [];
  transactions_enabled = true;
  ibc_events_enabled = true;
  network_drops_enabled = false;
  node_state_enabled = true;
  relayer_state_enabled = true;
}

abbrev packet : IbcPacket
packet = record {
  type = data_packet;
  src_chain = codes "chain-A";
  dst_chain = codes "chain-B";
  src_port = codes "port-A";
  src_channel = codes "channel-A";
  dst_port = codes "port-B";
  dst_channel = codes "channel-B";
  sequence = 1;
  payload = codes "two\nlines";
}

abbrev records : List (Bytes × Effect)
records =
    (codes "2024", logs_ibc_event packet_created packet [])
    ∷ (codes "2025", logs_network_drop (codes "a") (codes "b") 3)
    ∷ []

perform_all-IsWhole_example : IsWhole (perform_all logger records)
perform_all-IsWhole_example = perform_all-IsWhole logger records (record {
  transactions = tt;
  ibc_events = tt;
  network_drops = tt;
  node_states = tt;
  relayer_states = tt;
})

abbrev chain_cfg : ChainConfig
chain_cfg = record {
  chain_id = codes "chain-C";
  consensus_kind = pbft;
  node_count = 2;
  block_time = 500;
  pow_difficulty = 4;
  validator_set_size = 4;
  pbft_fault_tolerance = 1;
}

abbrev empty_simulation : Simulation
empty_simulation = new_simulation (chain_cfg ∷ []) (record {
  default_link_latency = 50;
  packet_drop_rate = 10000;
  ibc_traffic_ratio = 300000;
  enable_continuous_traffic = true;
  enable_detailed_transaction_logs = true;
  relayer_count = 2;
})

abbrev or_empty : Outcome Simulation → Simulation
or_empty (returns s) = s
or_empty (throws e) = empty_simulation

abbrev wired : Simulation
wired = or_empty (init_chain empty_simulation chain_cfg)

init_chain-returns : init_chain empty_simulation chain_cfg ≡ returns wired
unfolding init_chain add_chain add_nodes add_node push_node new_node register_node node_address make
    register_endpoint has_endpoint new_simulation new_transport new_blockchain lookup insert
    bytes_eq to_string register_node_id has_id
init_chain-returns = refl
