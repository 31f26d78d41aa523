-- ===== src/Sim/System/Stopping/Ends.antt =====
-- `stop` of src/sim/SimulationController.cpp comes to its end, and then nothing runs.
use interchain_communication.Prelude.{
  ℕ, ◌+◌, ◌≡◌, Bool, true, false, List, [], ◌∷◌, Option, none, some, All,
}
use interchain_communication.Core.NodeMessage.{NodeMessage}
use interchain_communication.Core.Node.{Node}
use interchain_communication.Net.Transport.{
  Transport, Phase, at_head, waiting, popped, counted, delivering, delivered, ended, stop_running,
}
use interchain_communication.Sim.Controller.{Simulation}
use interchain_communication.Sim.Controller.Running.{NodesRun, RelayersRun}
use interchain_communication.Sim.System.{World}
use interchain_communication.Sim.System.Stopping.{run_workers, stop_loops, stop}

-- How many blocks a worker is from its end when the transport does not run.
abbrev rank : Phase ℕ → ℕ
rank ended = 0
rank at_head = 1
rank delivered = 2
rank (delivering d task) = 3
rank (counted task) = 4
rank (popped task) = 5
rank waiting = 6

abbrev lag : List (Phase ℕ) → ℕ
lag [] = 0
lag (p ∷ ps) = rank p + lag ps

-- What the blocks of workers leave as it is.
record IsOff (b : Bool) (s : Simulation) : Type 0 where
  nodes : NodesRun false s.nodes
  relayers : RelayersRun false s.relayers
  traffic : s.traffic_running ≡ false
  transport : s.transport.running ≡ b

abbrev turned_off : World → World
turned_off w = record w { sim = record w.sim { transport = stop_running w.sim.transport } }

-- What is off when nothing runs, the workers' threads included.
abbrev pub AllOff : World → Type 0
AllOff w =
    NodesRun false w.sim.nodes
    × RelayersRun false w.sim.relayers
    × (w.sim.traffic_running ≡ false)
    × (w.sim.transport.running ≡ false)
    × All (λ p. p ≡ ended) w.workers

-- The world in which `stop` comes to its join, after the turns of its wait.
abbrev pub waited : World → List (ℕ × ℕ) → World
waited w before = run_workers (record w { sim = stop_loops w.sim }) before

abbrev pub OffIfReturned : Option World → Type 0
OffIfReturned none = Unit
OffIfReturned (some w) = AllOff w

-- What comes of `stop` if the transport is drained, and if it is not.
abbrev pub Returns : World → List (ℕ × ℕ) → List (ℕ × ℕ) → Bool → Type 0
Returns w before joins true =
    (joins' : List (ℕ × ℕ)) × (w' : World) × (stop w before joins' ≡ some w') × AllOff w'
Returns w before joins false = stop w before joins ≡ none
