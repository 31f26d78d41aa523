-- ===== src/Sim/System/Stopping.antt =====
-- `SimulationController::stop` of src/sim/SimulationController.cpp, with `waitForPendingDeliveries` and
-- `shutdown` of src/net/Transport.cpp, which it waits in. Its calls before these waits, which stop and
-- join the threads of the traffic, the relayers and the nodes, are taken as one step; the turns that
-- these threads have before they are joined are those of Sim.System. In the waits the transport's
-- workers have all turns: a turn is the worker's position and the clock's reading. `none` is a call
-- that still waits after the turns. Its last call flushes the logs, as in Util.DetailedLogger.Streams.
pub mod Ends
use interchain_communication.Prelude.{
  ℕ, Bool, true, false, List, [], ◌∷◌, map, Option, none, some, if◌then◌else◌,
}
use interchain_communication.Core.Node
use interchain_communication.Ibc.Relayer
use interchain_communication.Ibc.Relayer.{Subscribed}
use interchain_communication.Net.Transport.{Phase, ended, is_drained, stop_running}
use interchain_communication.Sim.Controller.{Handler, SimNode, Simulation}
use interchain_communication.Sim.System.{World, worker_block}

unfoldable pub run_workers : World → List (ℕ × ℕ) → World
run_workers w [] = w
run_workers w ((i, now) ∷ turns) = run_workers (worker_block w i now) turns

unfoldable pub wait_for_pending_deliveries : World → List (ℕ × ℕ) → Option World
wait_for_pending_deliveries w turns =
    let w' = run_workers w turns in if is_drained w'.sim.transport then some w' else none

-- The workers' threads are joinable to the end.
unfoldable pub all_ended : List (Phase ℕ) → Bool
all_ended [] = true
all_ended (ended ∷ workers) = all_ended workers
all_ended (_ ∷ workers) = false

-- `if (!running_.exchange(false)) return`, the wake-up and the joins.
unfoldable pub shutdown : World → List (ℕ × ℕ) → Option World
shutdown w turns =
    let off : World = record w {
      sim = record w.sim { transport = stop_running w.sim.transport };
    } in
    let w' = run_workers off turns in
    if w.sim.transport.running then (if all_ended w'.workers then some w' else none) else some w

-- The traffic's flag, and the loops over the relayers and the nodes.
unfoldable pub stop_loops : Simulation → Simulation
stop_loops s = record s {
  traffic_running = false;
  relayers =
      map (λ (r : Subscribed Handler). record r { relayer = Relayer.stop r.relayer }) s.relayers;
  nodes = map (λ (n : SimNode). record n { node = Node.stop n.node }) s.nodes;
}

abbrev pub go_on : Option World → (World → Option World) → Option World
go_on none k = none
go_on (some w) k = k w

-- `waits` are the turns while it waits for the deliveries, `joins` those while it joins the workers.
unfoldable pub stop : World → List (ℕ × ℕ) → List (ℕ × ℕ) → Option World
unfolding stop_loops wait_for_pending_deliveries shutdown
stop w waits joins =
    go_on (wait_for_pending_deliveries (record w { sim = stop_loops w.sim }) waits)
      (λ w'. shutdown w' joins)
