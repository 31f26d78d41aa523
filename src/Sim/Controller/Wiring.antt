-- ===== src/Sim/Controller/Wiring.antt =====
-- What `init` connects: a chain's first node and every relayer (src/sim/SimulationController.cpp).
use interchain_communication.Prelude.{
  ℕ, zero, suc, ◌+◌, ◌≤◌, ◌≡◌, refl, ap, subst, ◌∙◌, Bool, true, false, List, [], ◌∷◌, Option, none,
  some, Bytes, bytes_eq, bytes_eq_refl, lookup, insert, lookup-insert, length, length-append, leb,
  ltb, if◌then◌else◌, if_keeps, Bool-cases, inl, inr, All, arith,
}
use interchain_communication.Util.Error.{Status, Outcome, returns, throws, is_ok}
use interchain_communication.Core.Blockchain.{Blockchain, new_blockchain}
use interchain_communication.Core.Node.{Node, new_node, register_node}
use interchain_communication.Ibc.Relayer.{Subscribed, connect_chain_mailbox}
use interchain_communication.Net.Transport.{Transport, has_endpoint, register_endpoint}
use interchain_communication.Consensus.Factory.{ChainConfig, Engine, make}
use interchain_communication.Sim.Controller.{
  Handler, SimNode, Simulation, node_address, Built, push_node, add_node, add_nodes, Relayers,
  make_relayer, make_relayers, connect_relayers, add_chain, init_chain,
}

-- The relayer knows the mailbox of the chain.
abbrev pub Knows : Bytes → Bytes → Subscribed Handler → Type 0
Knows chain_id address s = lookup chain_id s.relayer.chain_addr ≡ some address

pub length-make_relayer :
    (r : ℕ) (rs : Relayers)
    → length (make_relayer r rs).0 ≡ (if leb (length rs.0) r then length rs.0 + 1 else length rs.0)
unfolding make_relayer
length-make_relayer r (relayers, bus) = elim (Bool-cases (leb (length relayers) r)) [
  | inl few ↦ rw few (length-append relayers _)
  | inr enough ↦ rw enough
]

length-make_relayers :
    (count r : ℕ) (rs : Relayers)
    → r ≤ length rs.0
    → length rs.0 ≤ r + count
    → length (make_relayers count r rs).0 ≡ r + count
unfolding make_relayers
length-make_relayers zero r rs lo hi = omega (arith, lo, hi)
length-make_relayers (suc count) r rs lo hi =
    length-make_relayers count (r + 1) (make_relayer r rs)
      (ground (arith, lo, length-make_relayer r rs))
      (ground (arith, lo, hi, length-make_relayer r rs))
    ∙ omega arith

connect_relayers-Knows :
    (count : ℕ) (chain_id address : Bytes) (relayers : List (Subscribed Handler))
    → length relayers ≤ count
    → All (Knows chain_id address) (connect_relayers count chain_id address relayers)
      × (length (connect_relayers count chain_id address relayers) ≡ length relayers)
unfolding connect_relayers connect_chain_mailbox
connect_relayers-Knows zero chain_id address [] h = (tt, refl)
connect_relayers-Knows zero chain_id address (s ∷ relayers) h = absurd (omega (arith, h))
connect_relayers-Knows (suc count) chain_id address [] h = (tt, refl)
connect_relayers-Knows (suc count) chain_id address (s ∷ relayers) h =
    let (know, same) = connect_relayers-Knows count chain_id address relayers (omega (arith, h)) in
    ((known, know), omega (arith, same))
  where
    known : lookup chain_id (insert chain_id address s.relayer.chain_addr) ≡ some address
    known =
        lookup-insert chain_id chain_id address s.relayer.chain_addr
        ∙ ap (λ b. if b then some address else lookup chain_id s.relayer.chain_addr)
            (bytes_eq_refl chain_id)

-- An endpoint is known by what `lookup` finds.
pub registered :
    (t : Transport ℕ) (address other : Bytes) (deliver : ℕ)
    → has_endpoint (record t { endpoints = insert address deliver t.endpoints }) other
      ≡ (if bytes_eq address other then true else has_endpoint t other)
unfolding has_endpoint
registered t address other deliver =
    ap is_some (lookup-insert address other deliver t.endpoints) ∙ push_in (bytes_eq address other)
  where
    is_some : Option ℕ → Bool
    is_some none = false
    is_some (some n) = true

    push_in :
        (b : Bool)
        → is_some (if b then some deliver else lookup other t.endpoints)
          ≡ (if b then true else is_some (lookup other t.endpoints))
    push_in true = refl
    push_in false = refl

register_keeps :
    (t : Transport ℕ) (address other : Bytes) (deliver : ℕ)
    → has_endpoint t other ≡ true
    → has_endpoint (register_endpoint t address deliver).0 other ≡ true
unfolding register_endpoint
register_keeps t address other deliver h = elim (Bool-cases (has_endpoint t address)) [
  | inl taken ↦ rw taken h
  | inr free ↦ rw free (registered t address other deliver ∙ ground (arith, h))
]

register_adds :
    (t : Transport ℕ) (address : Bytes) (deliver : ℕ)
    → has_endpoint (register_endpoint t address deliver).0 address ≡ true
unfolding register_endpoint
register_adds t address deliver = elim (Bool-cases (has_endpoint t address)) [
  | inl taken ↦ rw taken taken
  | inr free ↦
      rw free (registered t address address deliver ∙ ground (arith, bytes_eq_refl address))
]

-- The endpoint is there, if a node, or the nodes of a chain, were made.
HasNode : Bytes → Outcome (Node × Blockchain × Transport ℕ) → Type 0
HasNode address (throws e) = Unit
HasNode address (returns (n, bc, t)) = has_endpoint t address ≡ true

unfoldable pub HasMailbox : Bytes → Outcome Built → Type 0
HasMailbox address (throws e) = Unit
HasMailbox address (returns (bc, t, nodes)) = has_endpoint t address ≡ true

push_node-HasMailbox :
    (address : Bytes) (nodes : List SimNode) (engine : Engine) (chain : ℕ)
    (o : Outcome (Node × Blockchain × Transport ℕ))
    → HasNode address o
    → HasMailbox address (push_node nodes engine chain o)
unfolding push_node HasNode HasMailbox
push_node-HasMailbox address nodes engine chain (throws e) h = tt
push_node-HasMailbox address nodes engine chain (returns (n, bc, t)) h = h

register_node-HasNode :
    (address : Bytes) (n : Node) (bc : Blockchain) (p : Transport ℕ × Status)
    → has_endpoint p.0 address ≡ true
    → HasNode address (register_node n bc p)
unfolding register_node HasNode
register_node-HasNode address n bc (t, s) h = if_keeps (HasNode address) (is_ok s) _ _ h tt

add_node-keeps :
    (address : Bytes) (chain i : ℕ) (b : Built) (o : Outcome Engine)
    → has_endpoint b.1 address ≡ true
    → HasMailbox address (add_node chain i b o)
unfolding add_node new_node
add_node-keeps address chain i b (throws e) h = unfold HasMailbox in tt
add_node-keeps address chain i (bc, t, nodes) (returns engine) h =
    push_node-HasMailbox address nodes engine chain _
      (register_node-HasNode address _ bc _ (register_keeps t _ address (length nodes) h))

add_node-adds :
    (chain i : ℕ) (b : Built) (o : Outcome Engine)
    → HasMailbox (node_address b.0.chain_id i) (add_node chain i b o)
unfolding add_node new_node
add_node-adds chain i b (throws e) = unfold HasMailbox in tt
add_node-adds chain i (bc, t, nodes) (returns engine) =
    push_node-HasMailbox _ nodes engine chain _
      (register_node-HasNode _ _ bc _ (register_adds t _ (length nodes)))

pub add_nodes-keeps :
    (address : Bytes) (cfg : ChainConfig) (chain count i : ℕ) (o : Outcome Built)
    → HasMailbox address o
    → HasMailbox address (add_nodes cfg chain count i o)
unfolding add_nodes
add_nodes-keeps address cfg chain zero i o h = h
add_nodes-keeps address cfg chain (suc count) i (throws e) h = unfold HasMailbox in tt
add_nodes-keeps address cfg chain (suc count) i (returns b) h =
    add_nodes-keeps address cfg chain count (i + 1) _
      (add_node-keeps address chain i b (make cfg) (unfold HasMailbox in h))

-- What a chain that `init` has added is connected to.
pub record IsWired (s : Simulation) (cfg : ChainConfig) : Type 0 where
  pub mailbox : has_endpoint s.transport (node_address cfg.chain_id 0) ≡ true
  pub enough : length s.relayers ≡ s.cfg.relayer_count
  pub known : All (Knows cfg.chain_id (node_address cfg.chain_id 0)) s.relayers

abbrev pub Wired : ChainConfig → Outcome Simulation → Type 0
Wired cfg (throws e) = Unit
Wired cfg (returns s) = IsWired s cfg

pub add_chain-Wired :
    (s : Simulation) (cfg : ChainConfig) (o : Outcome Built)
    → 1 ≤ cfg.node_count
    → length s.relayers ≤ s.cfg.relayer_count
    → HasMailbox (node_address cfg.chain_id 0) o
    → Wired cfg (add_chain s cfg o)
unfolding add_chain
add_chain-Wired s cfg (throws e) some_nodes few h = tt
add_chain-Wired s cfg (returns (bc, t, nodes)) some_nodes few h =
    let count = s.cfg.relayer_count in
    let made =
      length-make_relayers count 0 (s.relayers, s.bus) (omega arith) (omega (arith, few)) in
    let (know, same) =
      connect_relayers-Knows count cfg.chain_id (node_address cfg.chain_id 0)
        (make_relayers count 0 (s.relayers, s.bus)).0 (omega (arith, made)) in
    let positive : ltb 0 cfg.node_count ≡ true = ground (arith, some_nodes) in
    rw positive (record {
      mailbox = unfold HasMailbox in h;
      enough = omega (arith, same, made);
      known = know;
    })

pub first_node :
    (cfg : ChainConfig) (chain count : ℕ) (b : Built)
    → 1 ≤ count
    → HasMailbox (node_address b.0.chain_id 0) (add_nodes cfg chain count 0 (returns b))
unfolding add_nodes
first_node cfg chain zero b h = absurd (omega (arith, h))
first_node cfg chain (suc count) b h =
    add_nodes-keeps _ cfg chain count (0 + 1) _ (add_node-adds chain 0 b (make cfg))

-- If the loop of `init` ends for a chain with a node, and no more relayers are there than are
-- configured, then the chain's first node has its mailbox at the transport, as many relayers are
-- there as are configured, and each of them knows that mailbox.
init_chain-IsWired :
    (s s' : Simulation) (cfg : ChainConfig)
    → 1 ≤ cfg.node_count
    → length s.relayers ≤ s.cfg.relayer_count
    → init_chain s cfg ≡ returns s'
    → IsWired s' cfg
unfolding init_chain new_blockchain
init_chain-IsWired s s' cfg some_nodes few e = subst (Wired cfg) e (
    add_chain-Wired s cfg _ some_nodes few (
      first_node cfg (length s.chains) cfg.node_count
        (new_blockchain cfg.chain_id true, s.transport, s.nodes) some_nodes))
