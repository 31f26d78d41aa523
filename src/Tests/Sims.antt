-- ===== src/Tests/Sims.antt =====
-- The simulation, its traffic, its counters and its terminal at concrete inputs.
use interchain_communication.Prelude.{
  ◌≡◌, ◌≢◌, refl, true, false, List, [], ◌∷◌, ◌++◌, map, Option, none, some, codes, bytes_eq,
  bytes_eq_iff, lookup, insert, get_elem?, set, All, replicate, if◌then◌else◌, arith, ◌+◌,
}
use interchain_communication.Util.Error.{Outcome, returns, throws}
use interchain_communication.Util.Decimal.{to_string}
use interchain_communication.Util.Json.Reader.{IsLine}
use interchain_communication.Util.Metrics.{count_effects}
use interchain_communication.Util.Metrics.Tally.{tally, increments, tally-count_effects}
use interchain_communication.Util.Logger.{
  Terminal, new_logger, set_level, trace_level, info_level, warn_level,
}
use interchain_communication.Util.Logger.Levels.{Message, log_all, at_least, log_all-at_least}
use interchain_communication.Core.Effect.{Effect, inc_counter, logs_network_drop}
use interchain_communication.Core.Blockchain.{Blockchain, new_blockchain, register_node_id, has_id}
use interchain_communication.Core.Blockchain.Channels.{bumped_at, Updated}
use interchain_communication.Core.Node.{new_node, register_node}
use interchain_communication.Net.Transport.{new_transport, register_endpoint, has_endpoint, at_head}
use interchain_communication.Consensus.Factory.{ChainConfig, pow, pbft, make, is_pow, is_pbft}
use interchain_communication.Sim.Controller.{
  SimulationConfig, Simulation, new_simulation, init, init_chains, init_chain, add_chain, add_nodes,
  add_node, push_node, node_address,
}
use interchain_communication.Sim.Controller.Wiring.{IsWired}
use interchain_communication.Sim.Controller.Mailboxes.{init-AllWired}
use interchain_communication.Sim.Controller.Total.{HasEngine}
use interchain_communication.Sim.Controller.Twins.{Throws, init_twins_throw}
use interchain_communication.Consensus.Pow.{new_pow}
use interchain_communication.Consensus.Pbft.{new_pbft}
use interchain_communication.Sim.Controller.Running.{NodesRun, RelayersRun}
use interchain_communication.Sim.Traffic.{generate_random_ibc_packet, random_packet, auto_payload}
use interchain_communication.Sim.Events.Broadcast.{offered}
use interchain_communication.Sim.System.{World, Reach, here, next, traffic_starts}
use interchain_communication.Sim.System.Packets.{
  traffic_packet, traffic_key, two_there, generate_ends, every_relayer_hears,
}
use interchain_communication.Util.Error.{open_failed}
use interchain_communication.Util.DetailedLogger.Streams.{open_stream}
use interchain_communication.Sim.Program.{construct, injected, launch}
use interchain_communication.Sim.Traffic.{Injection, inject_traffic}
use interchain_communication.Net.Transport.{
  work, take_task, take_from, is_drained, stop_running, waiting,
}
use interchain_communication.Sim.System.{worker_block, block_of_worker}
use interchain_communication.Sim.System.Stopping.{
  stop, wait_for_pending_deliveries, shutdown, run_workers, all_ended, stop_loops,
}
use interchain_communication.Sim.Program.Launch.{launch_lem}

abbrev records : List Effect
records =
    inc_counter "tx_received"
    ∷ logs_network_drop (codes "a") (codes "b") 3
    ∷ inc_counter "tx_submitted"
    ∷ inc_counter "tx_received"
    ∷ []

tally-count_effects_example :
    (tally (codes "tx_received") (count_effects [] (codes "2024") 7 records)
      ≡ tally (codes "tx_received") [] + increments (codes "tx_received") records)
    × All IsLine (count_effects [] (codes "2024") 7 records)
tally-count_effects_example =
    tally-count_effects (codes "tx_received") (codes "2024") 7 [] records tt

two_increments : increments (codes "tx_received") records ≡ 2
unfolding increments bytes_eq
two_increments = refl

abbrev terminal : Terminal
terminal = record { cout = []; cerr = [] }

abbrev messages : List Message
messages =
    record { level = info_level; ts = codes "12:00"; tid = codes "1"; text = codes "hello" }
    ∷ record { level = warn_level; ts = codes "12:01"; tid = codes "1"; text = codes "careful" }
    ∷ []

log_all-at_least_example :
    log_all (set_level (new_logger (codes "sim")) warn_level) terminal messages
    ≡ log_all
        (set_level (new_logger (codes "sim")) trace_level)
        terminal
        (at_least warn_level messages)
log_all-at_least_example = log_all-at_least (new_logger (codes "sim")) warn_level terminal messages

abbrev cfg_a : ChainConfig
cfg_a = record {
  chain_id = codes "a";
  consensus_kind = pow;
  node_count = 1;
  block_time = 1000;
  pow_difficulty = 3;
  validator_set_size = 4;
  pbft_fault_tolerance = 1;
}

abbrev cfg_b : ChainConfig
cfg_b = record cfg_a { chain_id = codes "b"; consensus_kind = pbft }

abbrev both : List ChainConfig
both = cfg_a ∷ cfg_b ∷ []

abbrev cfg : SimulationConfig
cfg = record {
  default_link_latency = 50;
  packet_drop_rate = 10000;
  ibc_traffic_ratio = 300000;
  enable_continuous_traffic = true;
  enable_detailed_transaction_logs = true;
  relayer_count = 2;
}

abbrev or_new : Outcome Simulation → Simulation
or_new (returns s) = s
or_new (throws e) = new_simulation both cfg

abbrev sim : Simulation
sim = or_new (init (new_simulation both cfg))

init_returns_both : init (new_simulation both cfg) ≡ returns sim
unfolding init init_chains init_chain add_chain add_nodes add_node push_node new_node register_node
    node_address make register_endpoint has_endpoint new_simulation new_transport new_blockchain
    lookup insert bytes_eq to_string register_node_id has_id
init_returns_both = refl

b_ne_a : codes "b" ≢ codes "a"
unfolding bytes_eq
b_ne_a h = cc ((bytes_eq_iff (codes "b") (codes "a")).1 h)

init-AllWired_example : All (IsWired sim) both
init-AllWired_example =
    init-AllWired both cfg sim (omega arith) ((b_ne_a, tt), (tt, tt)) init_returns_both

abbrev or_blank : Option Blockchain → Blockchain
or_blank none = new_blockchain [] true
or_blank (some bc) = bc

abbrev chain_a : Blockchain
chain_a = or_blank (get_elem? sim.chains 0)

abbrev chain_b : Blockchain
chain_b = or_blank (get_elem? sim.chains 1)

both_chains : (get_elem? sim.chains 0 ≡ some chain_a) × (get_elem? sim.chains 1 ≡ some chain_b)
unfolding init init_chains init_chain add_chain add_nodes add_node push_node new_node register_node
    node_address make register_endpoint has_endpoint new_simulation new_transport new_blockchain
    lookup insert bytes_eq to_string register_node_id has_id
both_chains = (refl, refl)

abbrev world : World
world = record { sim = record sim { traffic_running = true }; workers = replicate 4 at_head }

world-reached : Reach (record { sim = sim; workers = replicate 4 at_head }) world
world-reached = next here traffic_starts

every_relayer_hears_example :
    let p = traffic_packet chain_a chain_b (auto_payload chain_a chain_b 5) in
    (s' : Simulation) × (es : List Effect) × (a' : Blockchain) × (generate_random_ibc_packet
        world.sim
        (record { source = 0; destinations = (0 ∷ []) ++ 1 ∷ []; now = 5 })
      ≡ some (s', es ++ inc_counter "traffic_ibc_tx_generated" ∷ []))
    × (s'.relayers ≡ map (offered p) world.sim.relayers)
    × (s'.chains ≡ set world.sim.chains 0 a')
    × Updated chain_a traffic_key (bumped_at chain_a (codes "port-A") (codes "channel-A")) a'
every_relayer_hears_example =
    every_relayer_hears both cfg sim {w = world} 0 1 5 (0 ∷ []) [] chain_a chain_b init_returns_both
      world-reached both_chains.0 both_chains.1 (omega arith) (λ e. absurd (omega (arith, e)))

generate_ends_example :
    (generate_random_ibc_packet sim
        (record { source = 0; destinations = (0 ∷ []) ++ 1 ∷ []; now = 5 })
      ≡ some (random_packet sim 0 5 (get_elem? sim.chains 0) (get_elem? sim.chains 1)))
    × (generate_random_ibc_packet sim (record { source = 0; destinations = 0 ∷ []; now = 5 })
        ≡ none)
generate_ends_example =
    generate_ends sim 0 1 5 (0 ∷ []) []
      (two_there sim.chains 0 1 both_chains.0 both_chains.1 (λ e. absurd (omega (arith, e))))
      (omega arith) (λ e. absurd (omega (arith, e)))

engines : All HasEngine both
unfolding make
engines = ((is_pow (new_pow 3), refl), ((is_pbft (new_pbft 1), refl), tt))

abbrev injection : Injection
injection = record {
  recipient = λ i k. 0;
  id_now = λ i k. 7;
  network = λ i k. 0;
  now = λ i k. 7;
  packets = λ i. record { source = 0; destinations = 1 ∷ []; now = 5 };
}

launch_lem_example :
    (s : Simulation) × (s' : Simulation) × (init (new_simulation both cfg) ≡ returns s)
    × (launch (λ _. true) [] both cfg injection ≡ returns (injected (inject_traffic s' injection)))
    × NodesRun true s'.nodes
    × RelayersRun true s'.relayers
    × (s'.traffic_running ≡ (if s.cfg.enable_continuous_traffic then true else s.traffic_running))
launch_lem_example =
    launch_lem (λ _. true) [] both cfg injection (λ _. refl) engines ((b_ne_a, tt), (tt, tt))

-- A file that cannot be opened ends `main`.
unopened : launch (λ _. false) [] both cfg injection ≡ throws (open_failed (codes "metrics.jsonl"))
unfolding launch construct open_stream
unopened = refl

-- A world with one worker, which waits for a task.
abbrev stopping : World
stopping = record {
  sim = record {
    chain_cfgs = [];
    cfg = cfg;
    bus = record { next_token = 3; subs = [] };
    transport = new_transport (record { latency = 50; drop_rate = 10000 }) true;
    chains = [];
    nodes = [];
    relayers = [];
    traffic_running = true;
    tx_counter = 0;
  };
  workers = waiting ∷ [];
}

stop_returned : (w : World) × (stop stopping [] ((0, 9) ∷ []) ≡ some w)
unfolding stop wait_for_pending_deliveries shutdown run_workers worker_block block_of_worker work
    take_task take_from all_ended is_drained stop_running new_transport stop_loops
stop_returned = (_, refl)

-- As in the file config.txt, where two chains have one id.
init_twins_throw_example :
    Throws (init (new_simulation ((cfg_b ∷ []) ++ ((cfg_a ∷ cfg_b ∷ []) ++ (cfg_a ∷ []))) cfg))
init_twins_throw_example =
    init_twins_throw (cfg_b ∷ []) (cfg_b ∷ []) [] cfg_a cfg_a cfg (omega arith) (omega arith) refl
