-- ===== src/Sim/Controller/Twins.antt =====
-- What `init` does with two chains of one id (src/sim/SimulationController.cpp).
use interchain_communication.Prelude.{
  ℕ, zero, suc, ◌+◌, ◌≤◌, ◌≡◌, refl, sym, subst, ◌∙◌, true, List, [], ◌∷◌, ◌++◌, Bytes, length, ltb,
  Bool-cases, inl, inr, arith,
}
use interchain_communication.Util.Error.{Outcome, returns, throws}
use interchain_communication.Core.Blockchain.{new_blockchain}
use interchain_communication.Core.Node.{new_node, register_node}
use interchain_communication.Net.Transport.{has_endpoint, register_endpoint}
use interchain_communication.Consensus.Factory.{ChainConfig, Engine, make}
use interchain_communication.Sim.Controller.{
  SimulationConfig, Simulation, new_simulation, node_address, Built, push_node, add_node, add_nodes,
  add_chain, init_chain, init_chains, init,
}
use interchain_communication.Sim.Controller.Wiring.{HasMailbox, add_nodes-keeps, first_node}

-- A value is returned that lets the mailbox be, or an exception is thrown.
abbrev KeepsMailbox : Bytes → Outcome Simulation → Type 0
KeepsMailbox address (throws e) = Unit
KeepsMailbox address (returns s) = has_endpoint s.transport address ≡ true

add_chain_mailbox :
    (address : Bytes) (s : Simulation) (cfg : ChainConfig) (o : Outcome Built)
    → HasMailbox address o
    → KeepsMailbox address (add_chain s cfg o)
unfolding add_chain HasMailbox
add_chain_mailbox address s cfg (throws e) h = tt
add_chain_mailbox address s cfg (returns (bc, t, nodes)) h =
    elim (Bool-cases (ltb 0 cfg.node_count)) [
      | inl some_nodes ↦ rw some_nodes h
      | inr none ↦ rw none h
    ]

chain_mailbox :
    (address : Bytes) (s : Simulation) (cfg : ChainConfig)
    → has_endpoint s.transport address ≡ true
    → KeepsMailbox address (init_chain s cfg)
unfolding init_chain
chain_mailbox address s cfg h = add_chain_mailbox address s cfg _ (
    add_nodes-keeps address cfg (length s.chains) cfg.node_count 0
      (returns (new_blockchain cfg.chain_id true, s.transport, s.nodes)) (unfold HasMailbox in h))

chains_mailbox :
    (address : Bytes) (cfgs : List ChainConfig) (o : Outcome Simulation)
    → KeepsMailbox address o
    → KeepsMailbox address (init_chains o cfgs)
unfolding init_chains
chains_mailbox address [] o h = h
chains_mailbox address (c ∷ cs) (throws e) h = tt
chains_mailbox address (c ∷ cs) (returns s) h =
    chains_mailbox address cs (init_chain s c) (chain_mailbox address s c h)

own_mailbox :
    (s : Simulation) (cfg : ChainConfig)
    → 1 ≤ cfg.node_count
    → KeepsMailbox (node_address cfg.chain_id 0) (init_chain s cfg)
unfolding init_chain new_blockchain
own_mailbox s cfg h = add_chain_mailbox _ s cfg _ (
    first_node cfg (length s.chains) cfg.node_count
      (new_blockchain cfg.chain_id true, s.transport, s.nodes) h)

abbrev pub Throws : {A : Type 0} → Outcome A → Type 0
Throws (throws e) = Unit
Throws (returns a) = ⊥

nodes_throw :
    (cfg : ChainConfig) (chain count i : ℕ) (o : Outcome Built)
    → Throws o
    → Throws (add_nodes cfg chain count i o)
unfolding add_nodes
nodes_throw cfg chain zero i o h = h
nodes_throw cfg chain (suc count) i (throws e) h = tt
nodes_throw cfg chain (suc count) i (returns b) h = absurd h

taken-Throws :
    (chain i : ℕ) (b : Built) (o : Outcome Engine)
    → has_endpoint b.1 (node_address b.0.chain_id i) ≡ true
    → Throws (add_node chain i b o)
unfolding add_node new_node register_node register_endpoint push_node
taken-Throws chain i b (throws e) h = tt
taken-Throws chain i (bc, t, nodes) (returns engine) h = rw h tt

first-Throws :
    (cfg : ChainConfig) (chain count : ℕ) (b : Built)
    → 1 ≤ count
    → has_endpoint b.1 (node_address b.0.chain_id 0) ≡ true
    → Throws (add_nodes cfg chain count 0 (returns b))
unfolding add_nodes
first-Throws cfg chain zero b h taken = absurd (omega (arith, h))
first-Throws cfg chain (suc count) b h taken =
    nodes_throw cfg chain count (0 + 1) _ (taken-Throws chain 0 b (make cfg) taken)

chain-Throws :
    (s : Simulation) (cfg : ChainConfig) (o : Outcome Built) → Throws o → Throws (add_chain s cfg o)
unfolding add_chain
chain-Throws s cfg (throws e) h = tt
chain-Throws s cfg (returns b) h = absurd h

chains_throw :
    (cfgs : List ChainConfig) (o : Outcome Simulation) → Throws o → Throws (init_chains o cfgs)
unfolding init_chains
chains_throw [] o h = h
chains_throw (c ∷ cs) (throws e) h = tt
chains_throw (c ∷ cs) (returns s) h = absurd h

-- The twin of a chain whose mailbox is there, and all behind it.
twin-Throws :
    (c : ChainConfig) (cs : List ChainConfig) (o : Outcome Simulation)
    → 1 ≤ c.node_count
    → KeepsMailbox (node_address c.chain_id 0) o
    → Throws (init_chains o (c ∷ cs))
unfolding init_chains init_chain new_blockchain
twin-Throws c cs (throws e) h m = tt
twin-Throws c cs (returns s) h m = chains_throw cs _ (
    chain-Throws s c _ (
      first-Throws c (length s.chains) c.node_count
        (new_blockchain c.chain_id true, s.transport, s.nodes) h m))

init_chains-append :
    (xs ys : List ChainConfig) (o : Outcome Simulation)
    → init_chains o (xs ++ ys) ≡ init_chains (init_chains o xs) ys
unfolding init_chains
init_chains-append [] ys o = refl
init_chains-append (x ∷ xs) [] (throws e) = refl
init_chains-append (x ∷ xs) (y ∷ ys) (throws e) = refl
init_chains-append (x ∷ xs) ys (returns s) = init_chains-append xs ys (init_chain s x)

first_twin :
    (c : ChainConfig) (cs : List ChainConfig) (o : Outcome Simulation)
    → 1 ≤ c.node_count
    → KeepsMailbox (node_address c.chain_id 0) (init_chains o (c ∷ cs))
unfolding init_chains
first_twin c cs (throws e) h = tt
first_twin c cs (returns s) h = chains_mailbox _ cs (init_chain s c) (own_mailbox s c h)

-- If two chains that have nodes have one id, then `init` throws, whatever chains stand before, between
-- and behind them.
pub init_twins_throw :
    (before between behind : List ChainConfig) (c c' : ChainConfig) (cfg : SimulationConfig)
    → 1 ≤ c.node_count
    → 1 ≤ c'.node_count
    → c.chain_id ≡ c'.chain_id
    → Throws (init (new_simulation (before ++ ((c ∷ between) ++ (c' ∷ behind))) cfg))
unfolding init new_simulation
init_twins_throw before between behind c c' cfg h h' same =
    let s = new_simulation (before ++ ((c ∷ between) ++ (c' ∷ behind))) cfg in
    subst Throws
      (sym (
        init_chains-append before ((c ∷ between) ++ (c' ∷ behind)) (returns s)
        ∙ init_chains-append (c ∷ between) (c' ∷ behind) (init_chains (returns s) before)))
      (twin-Throws c' behind (init_chains (init_chains (returns s) before) (c ∷ between)) h' (
        subst
          (λ id.
            KeepsMailbox (node_address id 0)
              (init_chains (init_chains (returns s) before) (c ∷ between)))
          same (first_twin c between (init_chains (returns s) before) h)))
