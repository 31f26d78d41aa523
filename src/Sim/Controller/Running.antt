-- ===== src/Sim/Controller/Running.antt =====
-- Nodes and relayers that run, and what `start` and the calls of `stop` make of them
-- (src/sim/SimulationController.cpp).
use interchain_communication.Prelude.{
  ◌≡◌, refl, Bool, true, false, List, [], ◌∷◌, map, if◌then◌else◌, Bool-cases, inl, inr, All,
}
use interchain_communication.Util.Error.{is_ok}
use interchain_communication.Core.Node
use interchain_communication.Core.Node.{Node}
use interchain_communication.Ibc.Relayer
use interchain_communication.Ibc.Relayer.{Relayer, Subscribed}
use interchain_communication.Sim.Controller.{
  Handler, SimNode, Simulation, start_nodes, start_relayers, start,
}

-- All nodes run, or all are stopped; and so for the relayers.
abbrev pub NodesRun : Bool → List SimNode → Type 0
NodesRun b = All (λ n. n.node.running ≡ b)

abbrev pub RelayersRun : Bool → List (Subscribed Handler) → Type 0
RelayersRun b = All (λ r. r.relayer.running ≡ b)

node_stopped : (n : Node) → (Node.stop n).running ≡ false
unfolding Node.stop
node_stopped n = elim (Bool-cases n.running) [ inl h ↦ rw h | inr h ↦ rw h ]

relayer_stopped : (r : Relayer) → (Relayer.stop r).running ≡ false
unfolding Relayer.stop
relayer_stopped r = elim (Bool-cases r.running) [ inl h ↦ rw h | inr h ↦ rw h ]

abbrev stop_node : SimNode → SimNode
stop_node n = record n { node = Node.stop n.node }

abbrev stop_relayer : Subscribed Handler → Subscribed Handler
stop_relayer r = record r { relayer = Relayer.stop r.relayer }

pub nodes_stopped : (ns : List SimNode) → NodesRun false (map stop_node ns)
nodes_stopped [] = tt
nodes_stopped (n ∷ ns) = (node_stopped n.node, nodes_stopped ns)

pub relayers_stopped : (rs : List (Subscribed Handler)) → RelayersRun false (map stop_relayer rs)
relayers_stopped [] = tt
relayers_stopped (r ∷ rs) = (relayer_stopped r.relayer, relayers_stopped rs)

nodes_started :
    (ns : List SimNode)
    → NodesRun false ns
    → NodesRun true (start_nodes ns).0 × (is_ok (start_nodes ns).1 ≡ true)
unfolding start_nodes Node.start
nodes_started [] h = (tt, refl)
nodes_started (n ∷ ns) (h, hs) = let (run, fine) = nodes_started ns hs in rw h ((refl, run), fine)

relayers_started :
    (rs : List (Subscribed Handler))
    → RelayersRun false rs
    → RelayersRun true (start_relayers rs).0 × (is_ok (start_relayers rs).1 ≡ true)
unfolding start_relayers Relayer.start
relayers_started [] h = (tt, refl)
relayers_started (r ∷ rs) (h, hs) =
    let (run, fine) = relayers_started rs hs in rw h ((refl, run), fine)

-- If nothing runs yet, `start` succeeds and all nodes and relayers run, and the traffic if it is
-- enabled.
pub start_lem :
    (s : Simulation)
    → NodesRun false s.nodes
    → RelayersRun false s.relayers
    → (is_ok (start s).1 ≡ true)
      × NodesRun true (start s).0.nodes
      × RelayersRun true (start s).0.relayers
      × ((start s).0.traffic_running
          ≡ (if s.cfg.enable_continuous_traffic then true else s.traffic_running))
unfolding start
start_lem s hn hr =
    let (nodes, fine) = nodes_started s.nodes hn in
    let (relayers, fine') = relayers_started s.relayers hr in
    rw (fine, fine') (refl, nodes, relayers, refl)
