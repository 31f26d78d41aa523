-- ===== src/Sim/Controller/Total.antt =====
-- When `init` throws nothing (src/sim/SimulationController.cpp).
use interchain_communication.Prelude.{
  ℕ, zero, suc, ◌+◌, ◌≡◌, refl, sym, ap, subst, ◌∙◌, true, false, List, [], ◌∷◌, ◌++◌, some, Bytes,
  codes, lookup, length, ltb, if_keeps, Bool-cases, inl, inr, All, arith,
}
use interchain_communication.Util.Error.{returns}
use interchain_communication.Util.Queue.{empty_queue}
use interchain_communication.Util.Decimal.{to_string}
use interchain_communication.Core.Blockchain.{Blockchain, new_blockchain, register_node_id, has_id}
use interchain_communication.Core.Node.{new_node, register_node}
use interchain_communication.Net.Transport.{
  Transport, new_transport, has_endpoint, register_endpoint,
}
use interchain_communication.Consensus.Factory.{ChainConfig, Engine, make, engine_name}
use interchain_communication.Sim.Controller.{
  SimulationConfig, SimNode, Simulation, new_simulation, node_address, Built, push_node, add_node,
  add_nodes, make_relayers, connect_relayers, add_chain, init_chain, init_chains, init,
}
use interchain_communication.Sim.Controller.Free.{
  IsFree, with_endpoint, IsFree-behind, IsFree-other, SparesOthers,
}
use interchain_communication.Sim.Controller.Mailboxes.{Differ, AllDiffer}

register_node_id-chain_id :
    (bc : Blockchain) (id : Bytes) → (register_node_id bc id).chain_id ≡ bc.chain_id
unfolding register_node_id
register_node_id-chain_id bc id =
    if_keeps (λ (x : Blockchain). x.chain_id ≡ bc.chain_id) (has_id id bc.node_ids) bc _ refl refl

abbrev made_node : ℕ → ℕ → Built → Engine → SimNode
made_node chain i (bc, t, nodes) engine = record {
  node = record {
    node_id = codes "node-" ++ to_string i;
    address = node_address bc.chain_id i;
    consensus_name = some (engine_name engine);
    has_logger = true;
    running = false;
    inbox = empty_queue;
  };
  engine = engine;
  chain = chain;
}

add_node_returns :
    (chain i : ℕ) (b : Built) (engine : Engine)
    → IsFree b.1 b.0.chain_id i
    → (b' : Built) × (add_node chain i b (returns engine) ≡ returns b')
      × (b'.0.chain_id ≡ b.0.chain_id)
      × IsFree b'.1 b.0.chain_id (suc i)
      × SparesOthers b.0.chain_id b.1 b'.1
unfolding add_node new_node register_node register_endpoint push_node SparesOthers
add_node_returns chain i (bc, t, nodes) engine free =
    let vacant : has_endpoint t (node_address bc.chain_id i) ≡ false =
      unfold IsFree in free i (omega arith) in
    let name = codes "node-" ++ to_string i in
    let deliver = length nodes in
    (
      (
        register_node_id bc name,
        with_endpoint t (node_address bc.chain_id i) deliver,
        nodes ++ made_node chain i (bc, t, nodes) engine ∷ [],
      ),
      rw vacant refl,
      register_node_id-chain_id bc name,
      IsFree-behind t bc.chain_id i deliver free,
      λ id' n f. IsFree-other t bc.chain_id id' i deliver n f,
    )

add_nodes_returns :
    (cfg : ChainConfig) (chain count i : ℕ) (b : Built) (engine : Engine)
    → make cfg ≡ returns engine
    → IsFree b.1 b.0.chain_id i
    → (b' : Built) × (add_nodes cfg chain count i (returns b) ≡ returns b')
      × SparesOthers b.0.chain_id b.1 b'.1
unfolding add_nodes SparesOthers
add_nodes_returns cfg chain zero i b engine known free = (b, refl, λ id' n f. f)
add_nodes_returns cfg chain (suc count) i b engine known free =
    let (b1, one, same, free1, spare1) = add_node_returns chain i b engine free in
    let next : IsFree b1.1 b1.0.chain_id (i + 1) =
      subst (IsFree b1.1 b1.0.chain_id) (omega arith)
        (subst (λ id. IsFree b1.1 id (suc i)) (sym same) free1) in
    let (b2, rest, spare2) = add_nodes_returns cfg chain count (i + 1) b1 engine known next in
    (
      b2,
      ap (λ o. add_nodes cfg chain count (i + 1) (add_node chain i b o)) known
          ∙ ap (add_nodes cfg chain count (i + 1)) one
          ∙ rest,
      λ id' n f. spare2 id' (λ e. n (e ∙ same)) (unfold SparesOthers in spare1 id' n f),
    )

add_chain_returns :
    (s : Simulation) (cfg : ChainConfig) (b : Built)
    → (s' : Simulation) × (add_chain s cfg (returns b) ≡ returns s') × (s'.transport ≡ b.1)
unfolding add_chain
add_chain_returns s cfg (bc, t, nodes) = elim (Bool-cases (ltb 0 cfg.node_count)) [
  | inl nodes_there ↦
      let (relayers, bus) = make_relayers s.cfg.relayer_count 0 (s.relayers, s.bus) in
      (
        record s {
          chains = s.chains ++ bc ∷ [];
          nodes = nodes;
          transport = t;
          relayers =
              connect_relayers s.cfg.relayer_count cfg.chain_id (node_address cfg.chain_id 0)
                relayers;
          bus = bus;
        },
        rw nodes_there refl,
        refl,
      )
  | inr no_nodes ↦ (
    record s { chains = s.chains ++ bc ∷ []; nodes = nodes; transport = t },
    rw no_nodes refl,
    refl,
  )
]

init_chain_returns :
    (s : Simulation) (cfg : ChainConfig) (engine : Engine)
    → make cfg ≡ returns engine
    → IsFree s.transport cfg.chain_id 0
    → (s' : Simulation) × (init_chain s cfg ≡ returns s')
      × SparesOthers cfg.chain_id s.transport s'.transport
unfolding init_chain new_blockchain
init_chain_returns s cfg engine known free =
    let (b, built, spare) =
      add_nodes_returns cfg (length s.chains) cfg.node_count 0
        (new_blockchain cfg.chain_id true, s.transport, s.nodes) engine known free in
    let (s', added, transport) = add_chain_returns s cfg b in
    (
      s',
      ap (add_chain s cfg) built ∙ added,
      subst (SparesOthers cfg.chain_id s.transport) (sym transport) spare,
    )

-- The configuration of each chain names an engine.
abbrev pub HasEngine : ChainConfig → Type 0
HasEngine cfg = (engine : Engine) × (make cfg ≡ returns engine)

AllFree : Transport ℕ → List ChainConfig → Type 0
AllFree t = All (λ cfg. IsFree t cfg.chain_id 0)

spared :
    (t t' : Transport ℕ) (cfg : ChainConfig) (cfgs : List ChainConfig)
    → SparesOthers cfg.chain_id t t'
    → Differ cfg cfgs
    → AllFree t cfgs
    → AllFree t' cfgs
unfolding SparesOthers AllFree
spared t t' cfg [] spare d f = tt
spared t t' cfg (c ∷ cs) spare (d, ds) (f, fs) =
    (spare c.chain_id d f, spared t t' cfg cs spare ds fs)

init_chains_returns :
    (cfgs : List ChainConfig) (s : Simulation)
    → All HasEngine cfgs
    → AllDiffer cfgs
    → AllFree s.transport cfgs
    → (s' : Simulation) × (init_chains (returns s) cfgs ≡ returns s')
unfolding init_chains
init_chains_returns [] s known d f = (s, refl)
init_chains_returns (c ∷ cs) s ((engine, known), rest_known) (d, ds) f =
    let (free, rest_free) : IsFree s.transport c.chain_id 0 × AllFree s.transport cs =
      unfold AllFree in f in
    let (s1, one, spare) = init_chain_returns s c engine known free in
    let (s2, rest) =
      init_chains_returns cs s1 rest_known ds
        (spared s.transport s1.transport c cs spare d rest_free) in
    (s2, ap (λ o. init_chains o cs) one ∙ rest)

nothing_taken :
    (cfgs all : List ChainConfig) (cfg : SimulationConfig)
    → AllFree (new_simulation all cfg).transport cfgs
unfolding AllFree IsFree new_simulation new_transport has_endpoint lookup
nothing_taken [] all cfg = tt
nothing_taken (c ∷ cs) all cfg = (λ i le. refl, nothing_taken cs all cfg)

-- `init` ends and throws nothing if every chain's configuration names an engine and no two chains have
-- one id: no address is registered twice, however many nodes the chains have and whatever their ids
-- are.
pub init_returns :
    (cfgs : List ChainConfig) (cfg : SimulationConfig)
    → All HasEngine cfgs
    → AllDiffer cfgs
    → (s : Simulation) × (init (new_simulation cfgs cfg) ≡ returns s)
unfolding init
init_returns cfgs cfg known d =
    let (s, e) =
      init_chains_returns cfgs (new_simulation cfgs cfg) known d (nothing_taken cfgs cfgs cfg) in
    (s, unfold new_simulation in e)
