-- ===== src/Sim/System.antt =====
-- The whole simulation at run time: the threads of the nodes (src/core/Node.cpp), of the relayers
-- (src/ibc/Relayer.cpp), of the transport (src/net/Transport.cpp) and of the traffic generator
-- (src/sim/SimulationController.cpp) take turns. A turn is one round of a loop, or one block of a
-- worker; `start` and `stop` are their single calls, since other threads run between these.
pub mod Sound
pub mod Packets
pub mod Stopping
use interchain_communication.Prelude.{
  ℕ, ◌≡◌, true, false, List, [], ◌∷◌, Option, none, some, Bytes, get_elem?, set, if◌then◌else◌,
}
use interchain_communication.Core.Blockchain.{Blockchain}
use interchain_communication.Core.Node
use interchain_communication.Core.Node.{
  Round, waits, exits, goes_on, dies, on_bytes, submit_transaction,
}
use interchain_communication.Ibc.Relayer
use interchain_communication.Ibc.Relayer.{Subscribed, Draws}
use interchain_communication.Net.Transport.{Transport, Phase, Calls, work, is_drained, stop_running}
use interchain_communication.Sim.Controller.{Handler, SimNode, Simulation, open_ibc}
use interchain_communication.Sim.Events.{settle}
use interchain_communication.Sim.Traffic.{
  Acted, RoundDraws, Injection, traffic_round, inject_traffic,
}

-- The simulation and what the transport's workers are at.
pub record World : Type 0 where
  pub sim : Simulation
  pub workers : List (Phase ℕ)

-- What a node's round leaves behind; `none` is an exception that ends the program.
unfoldable pub after_node_round : Simulation → ℕ → SimNode → Round → Option Acted
after_node_round s i n waits = some (s, [])
after_node_round s i n exits = some (s, [])
after_node_round s i n (goes_on n' bc es) =
    let (relayers, fs) = settle s.bus es s.relayers in
    some (
      record s {
        nodes = set s.nodes i (record n { node = n' });
        chains = set s.chains n.chain bc;
        relayers = relayers;
      },
      fs,
    )
after_node_round s i n (dies e) = none

unfoldable pub round_on_chain : Simulation → ℕ → SimNode → Option Blockchain → Option Acted
round_on_chain s i n none = some (s, [])
round_on_chain s i n (some bc) = after_node_round s i n (Node.run_round n.node bc)

unfoldable pub round_of_node : Simulation → ℕ → Option SimNode → Option Acted
round_of_node s i none = some (s, [])
round_of_node s i (some n) = round_on_chain s i n (get_elem? s.chains n.chain)

unfoldable pub node_round : Simulation → ℕ → Option Acted
node_round s i = round_of_node s i (get_elem? s.nodes i)

unfoldable pub round_of_relayer :
    Simulation → ℕ → Option (Subscribed Handler) → Draws → Draws → ℕ → Acted
round_of_relayer s i none u v now = (s, [])
round_of_relayer s i (some r) u v now =
    let (r', t, es) = Relayer.run_round r.relayer s.transport u v now in
    if r.relayer.running
    then (record s { relayers = set s.relayers i (record r { relayer = r' }); transport = t }, es)
    else (s, [])

unfoldable pub relayer_round : Simulation → ℕ → Draws → Draws → ℕ → Acted
relayer_round s i u v now = round_of_relayer s i (get_elem? s.relayers i) u v now

-- `onBytes` of the node at a position, which is the delivery function of its endpoint.
unfoldable pub deliver_to_node : List SimNode → ℕ → Option SimNode → Bytes → List SimNode
deliver_to_node nodes i none bytes = nodes
deliver_to_node nodes i (some n) bytes = set nodes i (record n { node = on_bytes n.node bytes })

unfoldable pub deliver_all : List SimNode → Calls ℕ → List SimNode
deliver_all nodes [] = nodes
deliver_all nodes ((i, bytes) ∷ calls) =
    deliver_all (deliver_to_node nodes i (get_elem? nodes i) bytes) calls

unfoldable pub block_of_worker : World → ℕ → Option (Phase ℕ) → ℕ → World
block_of_worker w i none now = w
block_of_worker w i (some phase) now =
    let (t, phase', calls) = work w.sim.transport phase now in
    record {
      sim = record w.sim { transport = t; nodes = deliver_all w.sim.nodes calls };
      workers = set w.workers i phase';
    }

unfoldable pub worker_block : World → ℕ → ℕ → World
worker_block w i now = block_of_worker w i (get_elem? w.workers i) now

-- The calls that `start` and `stop` make of one node and one relayer.
unfoldable pub change_node : (Node.Node → Node.Node) → Simulation → ℕ → Option SimNode → Simulation
change_node f s i none = s
change_node f s i (some n) = record s { nodes = set s.nodes i (record n { node = f n.node }) }

unfoldable pub change_relayer :
    (Relayer.Relayer → Relayer.Relayer) → Simulation → ℕ → Option (Subscribed Handler) → Simulation
change_relayer f s i none = s
change_relayer f s i (some r) = record s {
  relayers = set s.relayers i (record r { relayer = f r.relayer });
}

abbrev pub with_sim : World → Simulation → World
with_sim w s = record w { sim = s }

pub data Step (w : World) : World → Type 0 where
  node_works : (i : ℕ) (a : Acted) → node_round w.sim i ≡ some a → Step w (with_sim w a.0)
  relayer_works :
      (i : ℕ) (u v : Draws) (now : ℕ) → Step w (with_sim w (relayer_round w.sim i u v now).0)
  worker_works : (i now : ℕ) → Step w (worker_block w i now)
  traffic_works :
      (d : RoundDraws) (a : Acted) → traffic_round w.sim d ≡ some a → Step w (with_sim w a.0)
  injects : (d : Injection) (a : Acted) → inject_traffic w.sim d ≡ some a → Step w (with_sim w a.0)
  opens :
      (a port chan b port' chan' : Bytes)
      → Step w (with_sim w (open_ibc w.sim a port chan b port' chan').0)
  node_starts :
      (i : ℕ)
      → Step w (with_sim w (change_node (λ n. (Node.start n).0) w.sim i (get_elem? w.sim.nodes i)))
  node_stops :
      (i : ℕ) → Step w (with_sim w (change_node Node.stop w.sim i (get_elem? w.sim.nodes i)))
  relayer_starts :
      (i : ℕ)
      → Step w (
          with_sim w
            (change_relayer (λ r. (Relayer.start r).0) w.sim i (get_elem? w.sim.relayers i)))
  relayer_stops :
      (i : ℕ)
      → Step w (with_sim w (change_relayer Relayer.stop w.sim i (get_elem? w.sim.relayers i)))
  traffic_starts : Step w (with_sim w (record w.sim { traffic_running = true }))
  traffic_stops : Step w (with_sim w (record w.sim { traffic_running = false }))
  transport_stops :
      is_drained w.sim.transport ≡ true
      → Step w (with_sim w (record w.sim { transport = stop_running w.sim.transport }))

pub data Reach (w : World) : World → Type 0 where
  here : Reach w w
  next : {w' w'' : World} → Reach w w' → Step w' w'' → Reach w w''
