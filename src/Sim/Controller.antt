-- ===== src/Sim/Controller.antt =====
-- src/sim/SimulationController.h and SimulationController.cpp, with src/config/SimulationConfig.h: how
-- the parts are made, connected, started and stopped. A delivery function of the transport is the
-- position of its node, and a handler of the bus is that of its relayer. `tx_counter` is the static
-- counter of `generateTxId` in src/core/Transaction.h.
pub mod Running
pub mod Wiring
pub mod Tuned
pub mod Ready
pub mod Mailboxes
pub mod Addresses
pub mod Free
pub mod Total
pub mod Twins
use interchain_communication.Prelude.{
  ℕ, zero, suc, ◌+◌, Bool, true, false, ◌&&◌, not, List, [], ◌∷◌, ◌++◌, map, Option, none, some,
  Bytes, codes, bytes_eq, length, leb, ltb, if◌then◌else◌,
}
use interchain_communication.Util.Error.{Status, status, ErrorCode, Outcome, returns, throws, is_ok}
use interchain_communication.Util.Decimal.{to_string}
use interchain_communication.Core.EventBus.{EventBus, new_bus}
use interchain_communication.Core.Blockchain.{Blockchain, new_blockchain, open_ibc_channel}
use interchain_communication.Core.Node
use interchain_communication.Core.Node.{Node, new_node}
use interchain_communication.Ibc.Relayer
use interchain_communication.Ibc.Relayer.{
  Relayer, Subscribed, subscribe_relayer, connect_chain_mailbox,
}
use interchain_communication.Net.Transport.{Transport, NetworkParams, new_transport}
use interchain_communication.Consensus.Factory.{ChainConfig, Engine, make, engine_name}

pub record SimulationConfig : Type 0 where
  pub default_link_latency : ℕ
  pub packet_drop_rate : ℕ
  pub ibc_traffic_ratio : ℕ
  pub enable_continuous_traffic : Bool
  pub enable_detailed_transaction_logs : Bool
  pub relayer_count : ℕ

pub data Handler : Type 0 where
  on_packet : ℕ → Handler
  on_ack : ℕ → Handler

-- A node, its engine, and the position of its chain.
pub record SimNode : Type 0 where
  pub node : Node
  pub engine : Engine
  pub chain : ℕ

pub record Simulation : Type 0 where
  pub chain_cfgs : List ChainConfig
  pub cfg : SimulationConfig
  pub bus : EventBus Handler
  pub transport : Transport ℕ
  pub chains : List Blockchain
  pub nodes : List SimNode
  pub relayers : List (Subscribed Handler)
  pub traffic_running : Bool
  pub tx_counter : ℕ

-- The constructor; the logger that it configures is always there.
unfoldable pub new_simulation : List ChainConfig → SimulationConfig → Simulation
new_simulation chain_cfgs cfg = record {
  chain_cfgs = chain_cfgs;
  cfg = cfg;
  bus = new_bus;
  transport =
      new_transport
        (record { latency = cfg.default_link_latency; drop_rate = cfg.packet_drop_rate }) true;
  chains = [];
  nodes = [];
  relayers = [];
  traffic_running = false;
  tx_counter = 0;
}

unfoldable pub node_address : Bytes → ℕ → Bytes
node_address chain_id i = chain_id ++ (b':' ∷ (codes "node-" ++ to_string i))

abbrev pub Built : Type 0
Built = Blockchain × Transport ℕ × List SimNode

-- The node that the loop of `init` makes, once its engine is made.
unfoldable pub push_node :
    List SimNode → Engine → ℕ → Outcome (Node × Blockchain × Transport ℕ) → Outcome Built
push_node nodes engine chain (returns (n, bc, t)) =
    returns (bc, t, nodes ++ record { node = n; engine = engine; chain = chain } ∷ [])
push_node nodes engine chain (throws e) = throws e

unfoldable pub add_node : ℕ → ℕ → Built → Outcome Engine → Outcome Built
add_node chain i b (throws e) = throws e
add_node chain i (bc, t, nodes) (returns engine) = push_node nodes engine chain (
    new_node (codes "node-" ++ to_string i) bc (some (engine_name engine)) t
      (node_address bc.chain_id i) true (length nodes))

-- The loop over the nodes of one chain: `count` of them from the `i`-th on.
unfoldable pub add_nodes : ChainConfig → ℕ → ℕ → ℕ → Outcome Built → Outcome Built
add_nodes cfg chain zero i b = b
add_nodes cfg chain (suc count) i (throws e) = throws e
add_nodes cfg chain (suc count) i (returns b) =
    add_nodes cfg chain count (i + 1) (add_node chain i b (make cfg))

abbrev pub Relayers : Type 0
Relayers = List (Subscribed Handler) × EventBus Handler

-- The `r`-th relayer is made if it is not there yet.
unfoldable pub make_relayer : ℕ → Relayers → Relayers
make_relayer r (relayers, bus) =
    let s = subscribe_relayer (codes "relayer-" ++ to_string r) true bus (on_packet r) (on_ack r) in
    if leb (length relayers) r then (relayers ++ s ∷ [], s.bus) else (relayers, bus)

-- The `count` relayers from the `r`-th on.
unfoldable pub make_relayers : ℕ → ℕ → Relayers → Relayers
make_relayers zero r rs = rs
make_relayers (suc count) r rs = make_relayers count (r + 1) (make_relayer r rs)

abbrev connect : Bytes → Bytes → Subscribed Handler → Subscribed Handler
connect chain_id address s = record s { relayer = connect_chain_mailbox s.relayer chain_id address }

-- The first `count` relayers learn the mailbox.
unfoldable pub connect_relayers :
    ℕ → Bytes → Bytes → List (Subscribed Handler) → List (Subscribed Handler)
connect_relayers zero chain_id address relayers = relayers
connect_relayers (suc count) chain_id address [] = []
connect_relayers (suc count) chain_id address (s ∷ relayers) =
    connect chain_id address s ∷ connect_relayers count chain_id address relayers

-- The part of the loop of `init` behind the nodes: a chain without nodes has no mailbox.
unfoldable pub add_chain : Simulation → ChainConfig → Outcome Built → Outcome Simulation
add_chain s cfg (throws e) = throws e
add_chain s cfg (returns (bc, t, nodes)) =
    let s' : Simulation = record s { chains = s.chains ++ bc ∷ []; nodes = nodes; transport = t } in
    let (relayers, bus) = make_relayers s.cfg.relayer_count 0 (s.relayers, s.bus) in
    if ltb 0 cfg.node_count
    then returns (record s' {
      relayers =
          connect_relayers s.cfg.relayer_count cfg.chain_id (node_address cfg.chain_id 0) relayers;
      bus = bus;
    })
    else returns s'

unfoldable pub init_chain : Simulation → ChainConfig → Outcome Simulation
init_chain s cfg = add_chain s cfg (
    add_nodes cfg (length s.chains) cfg.node_count 0
      (returns (new_blockchain cfg.chain_id true, s.transport, s.nodes)))

unfoldable pub init_chains : Outcome Simulation → List ChainConfig → Outcome Simulation
init_chains o [] = o
init_chains (throws e) (cfg ∷ cfgs) = throws e
init_chains (returns s) (cfg ∷ cfgs) = init_chains (init_chain s cfg) cfgs

unfoldable pub init : Simulation → Outcome Simulation
init s = init_chains (returns s) s.chain_cfgs

unfoldable pub find_chain : List Blockchain → Bytes → Option Blockchain
find_chain [] id = none
find_chain (bc ∷ chains) id = if bytes_eq bc.chain_id id then some bc else find_chain chains id

-- A call of `openChannel` on the chain that `findChain` finds.
unfoldable pub open_on : List Blockchain → Bytes → Bytes → Bytes → List Blockchain
open_on [] id port chan = []
open_on (bc ∷ chains) id port chan =
    if bytes_eq bc.chain_id id
    then (open_ibc_channel bc port chan).0 ∷ chains
    else bc ∷ open_on chains id port chan

unfoldable pub is_chain : List Blockchain → Bytes → Bool
is_chain chains id = elim (find_chain chains id) [ none ↦ false | some bc ↦ true ]

unfoldable pub open_ibc :
    Simulation → Bytes → Bytes → Bytes → Bytes → Bytes → Bytes → Simulation × Status
open_ibc s a ap ac b bp bc =
    if is_chain s.chains a && is_chain s.chains b
    then (record s { chains = open_on (open_on s.chains a ap ac) b bp bc }, status ErrorCode.ok "")
    else (s, status ErrorCode.not_found "One or both chains not found")

-- The loops of `start`, which stop at the first that fails.
unfoldable pub start_nodes : List SimNode → List SimNode × Status
start_nodes [] = ([], status ErrorCode.ok "")
start_nodes (n ∷ nodes) =
    let (n', s) = Node.start n.node in
    let (nodes', s') = start_nodes nodes in
    if is_ok s then (record n { node = n' } ∷ nodes', s') else (record n { node = n' } ∷ nodes, s)

unfoldable pub start_relayers : List (Subscribed Handler) → List (Subscribed Handler) × Status
start_relayers [] = ([], status ErrorCode.ok "")
start_relayers (r ∷ relayers) =
    let (r', s) = Relayer.start r.relayer in
    let (relayers', s') = start_relayers relayers in
    if is_ok s
    then (record r { relayer = r' } ∷ relayers', s')
    else (record r { relayer = r' } ∷ relayers, s)

unfoldable pub start : Simulation → Simulation × Status
start s =
    let (nodes, s1) = start_nodes s.nodes in
    let (relayers, s2) = start_relayers s.relayers in
    if not (is_ok s1)
    then (record s { nodes = nodes }, s1)
    else if not (is_ok s2)
    then (record s { nodes = nodes; relayers = relayers }, s2)
    else (
      record s {
        nodes = nodes;
        relayers = relayers;
        traffic_running = if s.cfg.enable_continuous_traffic then true else s.traffic_running;
      },
      status ErrorCode.ok "",
    )
