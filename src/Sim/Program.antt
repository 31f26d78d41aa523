-- ===== src/Sim/Program.antt =====
-- src/main.cpp: the configuration that it fixes, and how it launches the simulation up to its wait for
-- the signal. Its end is `stop`, in Sim.System.Stopping, and a return of 0. `opens` says which files
-- the system lets the program open.
pub mod Launch
use interchain_communication.Prelude.{
  ℕ, Bool, true, List, [], ◌∷◌, Option, none, some, Bytes, codes, if◌then◌else◌,
}
use interchain_communication.Util.Error.{Status, is_ok, Outcome, returns, throws}
use interchain_communication.Util.DetailedLogger.Streams.{Disk, and_then, open_stream, new_streams}
use interchain_communication.Consensus.Factory.{ChainConfig, pow, pos, pbft}
use interchain_communication.Sim.Controller.{
  SimulationConfig, Simulation, new_simulation, init, start, open_ibc,
}
use interchain_communication.Sim.Traffic.{Acted, Injection, inject_traffic}

-- The parameters of the run, with the defaults of src/config/SimulationConfig.h for the others.
unfoldable pub sim_cfg : SimulationConfig
sim_cfg = record {
  default_link_latency = 50;
  packet_drop_rate = 10000;
  ibc_traffic_ratio = 300000;
  enable_continuous_traffic = true;
  enable_detailed_transaction_logs = true;
  relayer_count = 3;
}

-- The three chains, with the defaults of src/config/ChainConfig.h for what a chain does not set.
unfoldable pub chain_cfgs : List ChainConfig
chain_cfgs =
    record {
      chain_id = codes "chain-A";
      consensus_kind = pow;
      node_count = 3;
      block_time = 1000;
      pow_difficulty = 3;
      validator_set_size = 4;
      pbft_fault_tolerance = 1;
    }
    ∷ record {
      chain_id = codes "chain-B";
      consensus_kind = pos;
      node_count = 4;
      block_time = 800;
      pow_difficulty = 4;
      validator_set_size = 4;
      pbft_fault_tolerance = 1;
    }
    ∷ record {
      chain_id = codes "chain-C";
      consensus_kind = pbft;
      node_count = 4;
      block_time = 500;
      pow_difficulty = 4;
      validator_set_size = 4;
      pbft_fault_tolerance = 1;
    }
    ∷ []

-- The controller, whose member `metrics_` opens its file and whose `detailedLogger_` opens three.
unfoldable pub construct :
    (Bytes → Bool) → Disk → List ChainConfig → SimulationConfig → Outcome Simulation
construct opens d cfgs cfg =
    and_then (open_stream opens (codes "metrics.jsonl") d)
      (λ (m, d'). and_then (new_streams opens d') (λ opened. returns (new_simulation cfgs cfg)))

-- `main` has returned a code, is drawing for a packet that it injects, or waits for the signal.
pub data Launched : Type 0 where
  exits : ℕ → Launched
  draws : Launched
  runs : Simulation → Launched

unfoldable pub injected : Option Acted → Launched
injected none = draws
injected (some (s, es)) = runs s

-- The status of `init`, which only throws or is Ok, is that of its return.
unfoldable pub launch_with : Injection → Simulation → Outcome Launched
unfolding injected
launch_with d s =
    let (s', status) = start s in
    returns (
      if is_ok status
      then injected (
          inject_traffic
            (open_ibc s' (codes "chain-A") (codes "port-A") (codes "channel-A") (codes "chain-B")
              (codes "port-B") (codes "channel-B")).0
            d)
      else exits 2)

-- `main` up to its wait for the signal. The other threads' turns are those of Sim.System.
unfoldable pub launch :
    (Bytes → Bool) → Disk → List ChainConfig → SimulationConfig → Injection → Outcome Launched
unfolding construct launch_with
launch opens disk cfgs cfg d =
    and_then (construct opens disk cfgs cfg) (λ s. and_then (init s) (launch_with d))
