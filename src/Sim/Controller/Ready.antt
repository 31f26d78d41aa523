-- ===== src/Sim/Controller/Ready.antt =====
-- The chains, nodes and relayers that `init` makes (src/sim/SimulationController.cpp).
use interchain_communication.Prelude.{
  ℕ, zero, suc, ◌+◌, ◌≡◌, refl, sym, subst, true, false, List, [], ◌∷◌, length, ltb, if_keeps,
  Bool-cases, inl, inr, All, All-append, arith,
}
use interchain_communication.Util.Error.{Outcome, returns, throws, Status, is_ok}
use interchain_communication.Core.EventBus.{new_bus, subscribers, publish}
use interchain_communication.Core.Blockchain.{Blockchain, register_node_id, has_id}
use interchain_communication.Core.Blockchain.Channels.{IsSound}
use interchain_communication.Core.Blockchain.Reach.{same_channels, new_blockchain-IsSound}
use interchain_communication.Core.Node.{Node, new_node, register_node}
use interchain_communication.Net.Transport.{Transport}
use interchain_communication.Consensus.Factory.{ChainConfig, Engine, make}
use interchain_communication.Sim.Controller.{
  SimulationConfig, SimNode, Simulation, new_simulation, Built, push_node, add_node, add_nodes,
  make_relayers, add_chain, init_chain, init_chains, init,
}
use interchain_communication.Sim.Controller.Running.{NodesRun, RelayersRun}
use interchain_communication.Sim.Controller.Tuned.{
  IsTuned, make_relayers-Tuned, Idle, make_relayers-Idle, connect_relayers-Run,
  connect_relayers-length, handlers_from,
}

-- What `init` has made so far.
pub record IsReady (s : Simulation) : Type 0 where
  pub sound : All IsSound s.chains
  pub tuned : IsTuned s.bus (length s.relayers)
  pub nodes_idle : NodesRun false s.nodes
  pub relayers_idle : RelayersRun false s.relayers

abbrev Ready : Outcome Simulation → Type 0
Ready (throws e) = Unit
Ready (returns s) = IsReady s

abbrev SoundBuilt : Outcome Built → Type 0
SoundBuilt (throws e) = Unit
SoundBuilt (returns (bc, t, nodes)) = IsSound bc × NodesRun false nodes

abbrev SoundNode : Outcome (Node × Blockchain × Transport ℕ) → Type 0
SoundNode (throws e) = Unit
SoundNode (returns (n, bc, t)) = IsSound bc × (n.running ≡ false)

push_node-SoundBuilt :
    (nodes : List SimNode) (engine : Engine) (chain : ℕ)
    (o : Outcome (Node × Blockchain × Transport ℕ))
    → SoundNode o
    → NodesRun false nodes
    → SoundBuilt (push_node nodes engine chain o)
unfolding push_node
push_node-SoundBuilt nodes engine chain (throws e) v h = tt
push_node-SoundBuilt nodes engine chain (returns (n, bc, t)) (v, idle) h =
    (v, All-append (λ (k : SimNode). k.node.running ≡ false) nodes _ h (idle, tt))

register_node-SoundNode :
    (n : Node) (bc : Blockchain) (p : Transport ℕ × Status)
    → IsSound bc
    → n.running ≡ false
    → SoundNode (register_node n bc p)
unfolding register_node register_node_id
register_node-SoundNode n bc (t, s) v idle =
    if_keeps SoundNode (is_ok s) (returns (n, register_node_id bc n.node_id, t)) _
      (if_keeps IsSound (has_id n.node_id bc.node_ids) bc _ v (same_channels refl refl v), idle) tt

add_node-SoundBuilt :
    (chain i : ℕ) (b : Built) (o : Outcome Engine)
    → IsSound b.0
    → NodesRun false b.2
    → SoundBuilt (add_node chain i b o)
unfolding add_node new_node
add_node-SoundBuilt chain i b (throws e) v h = tt
add_node-SoundBuilt chain i (bc, t, nodes) (returns engine) v h =
    push_node-SoundBuilt nodes engine chain _ (register_node-SoundNode _ bc _ v refl) h

add_nodes-SoundBuilt :
    (cfg : ChainConfig) (chain count i : ℕ) (o : Outcome Built)
    → SoundBuilt o
    → SoundBuilt (add_nodes cfg chain count i o)
unfolding add_nodes
add_nodes-SoundBuilt cfg chain zero i o v = v
add_nodes-SoundBuilt cfg chain (suc count) i (throws e) v = tt
add_nodes-SoundBuilt cfg chain (suc count) i (returns b) v =
    add_nodes-SoundBuilt cfg chain count (i + 1) _
      (add_node-SoundBuilt chain i b (make cfg) v.0 v.1)

add_chain-Ready :
    (s : Simulation) (cfg : ChainConfig) (o : Outcome Built)
    → IsReady s
    → SoundBuilt o
    → Ready (add_chain s cfg o)
unfolding add_chain
add_chain-Ready s cfg (throws e) r v = tt
add_chain-Ready s cfg (returns (bc, t, nodes)) r (v, idle) =
    let made = make_relayers s.cfg.relayer_count 0 (s.relayers, s.bus) in
    let tuned =
      make_relayers-Tuned s.cfg.relayer_count 0 (s.relayers, s.bus) (omega arith) r.tuned in
    let made_idle =
      make_relayers-Idle s.cfg.relayer_count 0 (s.relayers, s.bus)
        (unfold Idle in r.relayers_idle) in
    let chains = All-append IsSound s.chains (bc ∷ []) r.sound (v, tt) in
    elim (Bool-cases (ltb 0 cfg.node_count)) [
      | inl nodes_there ↦ rw nodes_there (record {
        sound = chains;
        tuned =
            subst (IsTuned made.1)
              (sym (connect_relayers-length s.cfg.relayer_count cfg.chain_id _ made.0)) tuned;
        nodes_idle = idle;
        relayers_idle =
            connect_relayers-Run s.cfg.relayer_count cfg.chain_id _ made.0
              (unfold Idle in made_idle);
      })
      | inr no_nodes ↦ rw no_nodes (record {
        sound = chains;
        tuned = r.tuned;
        nodes_idle = idle;
        relayers_idle = r.relayers_idle;
      })
    ]

init_chains-Ready :
    (o : Outcome Simulation) (cfgs : List ChainConfig) → Ready o → Ready (init_chains o cfgs)
unfolding init_chains init_chain
init_chains-Ready o [] r = r
init_chains-Ready (throws e) (cfg ∷ cfgs) r = tt
init_chains-Ready (returns s) (cfg ∷ cfgs) r = init_chains-Ready (init_chain s cfg) cfgs (
    add_chain-Ready s cfg _ r (
      add_nodes-SoundBuilt cfg (length s.chains) cfg.node_count 0 _
        (new_blockchain-IsSound cfg.chain_id true, r.nodes_idle)))

new_simulation-IsReady :
    (cfgs : List ChainConfig) (cfg : SimulationConfig) → IsReady (new_simulation cfgs cfg)
unfolding new_simulation new_bus publish subscribers handlers_from
new_simulation-IsReady cfgs cfg = record {
  sound = tt;
  tuned = record { fresh = tt; packets = λ e k. refl; acks = λ e k. refl };
  nodes_idle = tt;
  relayers_idle = tt;
}

pub init-IsReady :
    (cfgs : List ChainConfig) (cfg : SimulationConfig) (s : Simulation)
    → init (new_simulation cfgs cfg) ≡ returns s
    → IsReady s
unfolding init
init-IsReady cfgs cfg s e = subst Ready e (init_chains-Ready _ _ (new_simulation-IsReady cfgs cfg))
