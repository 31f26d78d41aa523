-- ===== src/Sim/Controller/Mailboxes.antt =====
-- What stays connected while `init` adds one chain after the other
-- (src/sim/SimulationController.cpp).
use interchain_communication.Prelude.{
  ℕ, zero, suc, ◌+◌, ◌≤◌, ◌≡◌, ◌≢◌, refl, subst, ◌∙◌, true, false, List, [], ◌∷◌, Bytes,
  bytes_eq_iff, lookup-insert, length, leb, ltb, All, arith,
}
use interchain_communication.Util.Error.{Outcome, returns, throws}
use interchain_communication.Core.Blockchain.{new_blockchain}
use interchain_communication.Ibc.Relayer.{Subscribed, connect_chain_mailbox}
use interchain_communication.Consensus.Factory.{ChainConfig}
use interchain_communication.Sim.Controller.{
  SimulationConfig, Handler, Simulation, new_simulation, node_address, Built, Relayers,
  make_relayer, make_relayers, connect_relayers, add_chain, init_chain, init_chains, init,
}
use interchain_communication.Sim.Controller.Tuned.{connect_relayers-length}
use interchain_communication.Sim.Controller.Wiring.{
  Knows, IsWired, Wired, HasMailbox, add_nodes-keeps, add_chain-Wired, first_node,
}

-- No relayer is made where enough are there.
make_relayers_enough :
    (count r : ℕ) (rs : Relayers) → r + count ≤ length rs.0 → make_relayers count r rs ≡ rs
unfolding make_relayers make_relayer
make_relayers_enough zero r rs h = refl
make_relayers_enough (suc count) r (relayers, bus) h =
    let there : leb (length relayers) r ≡ false = ground (arith, h) in
    rw there (make_relayers_enough count (r + 1) (relayers, bus) (omega (arith, h)))

connect_relayers_other :
    (count : ℕ) (id id' address address' : Bytes) (relayers : List (Subscribed Handler))
    → id ≢ id'
    → All (Knows id' address') relayers
    → All (Knows id' address') (connect_relayers count id address relayers)
unfolding connect_relayers connect_chain_mailbox
connect_relayers_other zero id id' address address' relayers n k = k
connect_relayers_other (suc count) id id' address address' [] n k = tt
connect_relayers_other (suc count) id id' address address' (s ∷ relayers) n (k, ks) = (
  lookup-insert id id' address s.relayer.chain_addr ∙ ground (arith, bytes_eq_iff id id', n, k),
  connect_relayers_other count id id' address address' relayers n ks,
)

add_chain_keeps :
    (s : Simulation) (cfg cfg' : ChainConfig) (o : Outcome Built)
    → cfg.chain_id ≢ cfg'.chain_id
    → 1 ≤ cfg.node_count
    → IsWired s cfg'
    → HasMailbox (node_address cfg'.chain_id 0) o
    → Wired cfg' (add_chain s cfg o)
unfolding add_chain
add_chain_keeps s cfg cfg' (throws e) n nodes_there w m = tt
add_chain_keeps s cfg cfg' (returns (bc, t, nodes)) n nodes_there w m =
    let count = s.cfg.relayer_count in
    let positive : ltb 0 cfg.node_count ≡ true = ground (arith, nodes_there) in
    let same = make_relayers_enough count 0 (s.relayers, s.bus) (omega (arith, w.enough)) in
    rw (positive, same)
      (record {
        mailbox = unfold HasMailbox in m;
        enough = connect_relayers-length count cfg.chain_id _ s.relayers ∙ w.enough;
        known = connect_relayers_other count cfg.chain_id cfg'.chain_id _ _ s.relayers n w.known;
      })

init_chain_keeps :
    (s : Simulation) (cfg cfg' : ChainConfig)
    → cfg.chain_id ≢ cfg'.chain_id
    → 1 ≤ cfg.node_count
    → IsWired s cfg'
    → Wired cfg' (init_chain s cfg)
unfolding init_chain
init_chain_keeps s cfg cfg' n nodes_there w = add_chain_keeps s cfg cfg' _ n nodes_there w (
    add_nodes-keeps _ cfg (length s.chains) cfg.node_count 0
      (returns (new_blockchain cfg.chain_id true, s.transport, s.nodes))
      (unfold HasMailbox in w.mailbox))

init_chain_adds :
    (s : Simulation) (cfg : ChainConfig)
    → 1 ≤ cfg.node_count
    → length s.relayers ≤ s.cfg.relayer_count
    → Wired cfg (init_chain s cfg)
unfolding init_chain new_blockchain
init_chain_adds s cfg nodes_there few = add_chain-Wired s cfg _ nodes_there few (
    first_node cfg (length s.chains) cfg.node_count
      (new_blockchain cfg.chain_id true, s.transport, s.nodes) nodes_there)

-- Chains with a node each, and no two with one id.
abbrev pub HaveNodes : List ChainConfig → Type 0
HaveNodes = All (λ cfg. 1 ≤ cfg.node_count)

abbrev pub Differ : ChainConfig → List ChainConfig → Type 0
Differ cfg = All (λ other. other.chain_id ≢ cfg.chain_id)

abbrev pub AllDiffer : List ChainConfig → Type 0
AllDiffer [] = Unit
AllDiffer (cfg ∷ cfgs) = Differ cfg cfgs × AllDiffer cfgs

init_chains_keeps :
    (cfgs : List ChainConfig) (o : Outcome Simulation) (cfg : ChainConfig)
    → HaveNodes cfgs
    → Differ cfg cfgs
    → Wired cfg o
    → Wired cfg (init_chains o cfgs)
unfolding init_chains
init_chains_keeps [] o cfg h d w = w
init_chains_keeps (c ∷ cs) (throws e) cfg h d w = tt
init_chains_keeps (c ∷ cs) (returns s) cfg (h, hs) (d, ds) w =
    init_chains_keeps cs (init_chain s c) cfg hs ds (init_chain_keeps s c cfg d h w)

abbrev AllWired : List ChainConfig → Outcome Simulation → Type 0
AllWired cfgs (throws e) = Unit
AllWired cfgs (returns s) = All (IsWired s) cfgs

one_more :
    (o : Outcome Simulation) (cfg : ChainConfig) (cfgs : List ChainConfig)
    → Wired cfg o
    → AllWired cfgs o
    → AllWired (cfg ∷ cfgs) o
one_more (throws e) cfg cfgs w ws = tt
one_more (returns s) cfg cfgs w ws = (w, ws)

none_wired : (o : Outcome Simulation) → AllWired [] o
none_wired (throws e) = tt
none_wired (returns s) = tt

Few : Outcome Simulation → Type 0
Few (throws e) = Unit
Few (returns s) = length s.relayers ≤ s.cfg.relayer_count

Few-of_Wired : (o : Outcome Simulation) (cfg : ChainConfig) → Wired cfg o → Few o
unfolding Few
Few-of_Wired (throws e) cfg w = tt
Few-of_Wired (returns s) cfg w = omega (arith, w.enough)

init_chains_adds :
    (cfgs : List ChainConfig) (o : Outcome Simulation)
    → HaveNodes cfgs
    → AllDiffer cfgs
    → Few o
    → AllWired cfgs (init_chains o cfgs)
unfolding init_chains
init_chains_adds [] o h d few = none_wired o
init_chains_adds (c ∷ cs) (throws e) h d few = tt
init_chains_adds (c ∷ cs) (returns s) (h, hs) (d, ds) few =
    let w = init_chain_adds s c h (unfold Few in few) in
    one_more (init_chains (init_chain s c) cs) c cs (init_chains_keeps cs (init_chain s c) c hs d w)
      (init_chains_adds cs (init_chain s c) hs ds (Few-of_Wired (init_chain s c) c w))

-- If `init` throws nothing, all chains have a node and no two have one id, then in the end every chain
-- has its mailbox at the transport, as many relayers are there as are configured, and each of them
-- knows the mailbox of every chain.
pub init-AllWired :
    (cfgs : List ChainConfig) (cfg : SimulationConfig) (s : Simulation)
    → HaveNodes cfgs
    → AllDiffer cfgs
    → init (new_simulation cfgs cfg) ≡ returns s
    → All (IsWired s) cfgs
unfolding init new_simulation
init-AllWired cfgs cfg s h d e =
    subst (AllWired cfgs) e
      (init_chains_adds cfgs (returns (new_simulation cfgs cfg)) h d (unfold Few in omega arith))
