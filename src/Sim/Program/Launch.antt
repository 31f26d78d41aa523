-- ===== src/Sim/Program/Launch.antt =====
-- What is running when `main` has launched the simulation (src/main.cpp).
use interchain_communication.Prelude.{
  Bool, Bytes, lookup, insert, All, ◌≡◌, refl, ◌∙◌, ap, sym, subst, codes, true, List, ◌&&◌,
  if◌then◌else◌, if_keeps,
}
use interchain_communication.Util.Error.{Status, status, ErrorCode, returns}
use interchain_communication.Core.Blockchain.{Blockchain}
use interchain_communication.Consensus.Factory.{ChainConfig}
use interchain_communication.Util.DetailedLogger.{lines_of}
use interchain_communication.Util.DetailedLogger.Streams.{Disk, and_then, open_stream, new_streams}
use interchain_communication.Util.DetailedLogger.Stored.{Ends-returns}
use interchain_communication.Util.DetailedLogger.Durable.{new_streams-Ends}
use interchain_communication.Sim.Traffic.{Injection, inject_traffic}
use interchain_communication.Sim.Controller.{
  SimulationConfig, Simulation, new_simulation, init, start, open_on, is_chain, open_ibc,
}
use interchain_communication.Sim.Controller.Ready.{init-IsReady}
use interchain_communication.Sim.Controller.Mailboxes.{AllDiffer}
use interchain_communication.Sim.Controller.Total.{HasEngine, init_returns}
use interchain_communication.Sim.Controller.Running.{NodesRun, RelayersRun, start_lem}
use interchain_communication.Sim.Program.{construct, injected, launch_with, launch}

abbrev opened : Simulation → Simulation
opened s =
    (open_ibc s (codes "chain-A") (codes "port-A") (codes "channel-A") (codes "chain-B")
      (codes "port-B") (codes "channel-B")).0

-- Opening channels leaves nodes, relayers and traffic as they are.
opened_same :
    {A : Type 0} (f : Simulation → A) (s : Simulation)
    → ((chains : List Blockchain) → f (record s { chains = chains }) ≡ f s)
    → f (opened s) ≡ f s
unfolding open_ibc
opened_same f s h =
    let chains =
      open_on (open_on s.chains (codes "chain-A") (codes "port-A") (codes "channel-A"))
        (codes "chain-B") (codes "port-B") (codes "channel-B") in
    if_keeps (λ (r : Simulation × Status). f r.0 ≡ f s)
      (is_chain s.chains (codes "chain-A") && is_chain s.chains (codes "chain-B"))
      (record s { chains = chains }, status ErrorCode.ok "")
      (s, status ErrorCode.not_found "One or both chains not found") (h chains) refl

-- The files open.
construct_returns :
    (opens : Bytes → Bool) (disk : Disk) (cfgs : List ChainConfig) (cfg : SimulationConfig)
    → ((file : Bytes) → opens file ≡ true)
    → construct opens disk cfgs cfg ≡ returns (new_simulation cfgs cfg)
unfolding construct open_stream
construct_returns opens disk cfgs cfg all_open =
    let d' = insert (codes "metrics.jsonl") (lines_of (lookup (codes "metrics.jsonl") disk)) disk in
    let (opened, e) = Ends-returns (new_streams opens d') _ (new_streams-Ends opens all_open d') in
    rw (all_open (codes "metrics.jsonl"), e)

-- If every file can be opened, the configuration of every chain names an engine and no two chains have
-- one id, then `main` neither throws nor returns 1 or 2: `init` returns, and `main` injects its traffic
-- into a simulation whose nodes and relayers all run, and its traffic generator if it is configured.
-- When the draws for the injected packets have ended, it waits for the signal.
pub launch_lem :
    (opens : Bytes → Bool) (disk : Disk) (cfgs : List ChainConfig) (cfg : SimulationConfig)
    (d : Injection)
    → ((file : Bytes) → opens file ≡ true)
    → All HasEngine cfgs
    → AllDiffer cfgs
    → (s : Simulation) × (s' : Simulation) × (init (new_simulation cfgs cfg) ≡ returns s)
      × (launch opens disk cfgs cfg d ≡ returns (injected (inject_traffic s' d)))
      × NodesRun true s'.nodes
      × RelayersRun true s'.relayers
      × (s'.traffic_running ≡ (if s.cfg.enable_continuous_traffic then true else s.traffic_running))
unfolding launch launch_with
launch_lem opens disk cfgs cfg d all_open known differ =
    let (s, made) = init_returns cfgs cfg known differ in
    let ready = init-IsReady cfgs cfg s made in
    let (fine, nodes, relayers, traffic) = start_lem s ready.nodes_idle ready.relayers_idle in
    let started = (start s).0 in
    (
      s,
      opened started,
      made,
      ap (λ m. and_then m (λ s. and_then (init s) (launch_with d)))
            (construct_returns opens disk cfgs cfg all_open)
          ∙ ap (λ m. and_then m (launch_with d)) made
          ∙ rw fine,
      subst (NodesRun true) (sym (opened_same (λ k. k.nodes) started (λ c. refl))) nodes,
      subst (RelayersRun true) (sym (opened_same (λ k. k.relayers) started (λ c. refl))) relayers,
      opened_same (λ k. k.traffic_running) started (λ c. refl) ∙ traffic,
    )
