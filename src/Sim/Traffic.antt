-- ===== src/Sim/Traffic.antt =====
-- The traffic of src/sim/SimulationController.cpp: `injectTraffic` and the traffic generator. The
-- draws of the random number generators are arguments: an index is what its distribution returns,
-- and the draws of a loop that draws again are a list. The counters of src/util/Metrics.h and the
-- records of the detailed logger go to different files: only the order within each is that of the
-- source.
pub mod Kept
pub mod Injected
use interchain_communication.Prelude.{
  ℕ, zero, suc, ◌+◌, ◌&&◌, List, [], ◌∷◌, ◌++◌, Option, none, some, Bytes, codes, length, get_elem?,
  set, ltb, leb, ◌==◌, if◌then◌else◌,
}
use interchain_communication.Util.Error.{Status, is_ok}
use interchain_communication.Util.Decimal.{to_string}
use interchain_communication.Core.Transaction.{Transaction, regular, generate_tx_id}
use interchain_communication.Core.Effect.{Effect, inc_counter, logs_transaction, created}
use interchain_communication.Core.Blockchain.{Blockchain, send_ibc}
use interchain_communication.Core.Node.{submit_transaction}
use interchain_communication.Net.Transport.{send, uniform, rate_one}
use interchain_communication.Sim.Controller.{SimNode, Simulation}
use interchain_communication.Sim.Events.{settle}

abbrev pub Acted : Type 0
Acted = Simulation × List Effect

-- `Node::submitTransaction` on the chain that the node refers to, and its send to itself; `u` is the
-- transport's draw.
unfoldable pub submit : Simulation → SimNode → Option Blockchain → Transaction → ℕ → ℕ → Acted
submit s n none tx u now = (s, [])
submit s n (some bc) tx u now =
    let (bc', bytes, es) = submit_transaction n.node bc tx in
    let (t, sent, fs) = send s.transport n.node.address n.node.address bytes u now in
    (record s { chains = set s.chains n.chain bc'; transport = t }, es ++ fs)

-- A transaction gets its id, is recorded as created if the configuration says so, and is submitted.
unfoldable pub create_and_submit : Simulation → SimNode → Bytes → Bytes → ℕ → ℕ → ℕ → Acted
create_and_submit s n to payload id_now u now =
    let (counter, id) = generate_tx_id s.tx_counter id_now in
    let tx : Transaction = record {
      from = n.node.address;
      to = to;
      payload = payload;
      type = regular;
      tx_id = id;
    } in
    let (s', es) =
      submit (record s { tx_counter = counter }) n (get_elem? s.chains n.chain) tx u now in
    (
      s',
      (if s.cfg.enable_detailed_transaction_logs
            then logs_transaction created tx [] [] ∷ []
            else [])
          ++ es,
    )

-- The first draw that is another index than the source's, which ends the loop
-- `while (dst_idx == src_idx)`; `none` if all draws are the source's, and the loop still runs.
unfoldable pub redraw : ℕ → List ℕ → Option ℕ
redraw src [] = none
redraw src (d ∷ draws) = let rest = redraw src draws in if d == src then rest else some d

-- `sendIBC` between two chains on the fixed ports and channels, with the handlers of the bus.
unfoldable pub send_between :
    Simulation → ℕ → Blockchain → Blockchain → Bytes → Simulation × Status × List Effect
send_between s src a b payload =
    let (a', r, es) =
      send_ibc a (codes "port-A") (codes "channel-A") b.chain_id (codes "port-B")
        (codes "channel-B") payload in
    let (relayers, fs) = settle s.bus es s.relayers in
    (record s { chains = set s.chains src a'; relayers = relayers }, r.status, fs)

-- The draws of one transaction, of one packet, and of one round of the traffic generator.
pub record TxDraws : Type 0 where
  pub sender : ℕ
  pub receiver : ℕ
  pub payload_now : ℕ
  pub id_now : ℕ
  pub network : ℕ
  pub now : ℕ

pub record PacketDraws : Type 0 where
  pub source : ℕ
  pub destinations : List ℕ
  pub now : ℕ

pub record RoundDraws : Type 0 where
  pub kind : ℕ
  pub tx : TxDraws
  pub packet : PacketDraws

unfoldable pub random_transaction : Simulation → TxDraws → Option SimNode → Option SimNode → Acted
random_transaction s d (some sender) (some receiver) =
    let (s', es) =
      create_and_submit s sender receiver.node.address
        (codes "auto_gen_tx_" ++ to_string d.payload_now) d.id_now d.network d.now in
    (s', es ++ inc_counter "traffic_regular_tx_generated" ∷ [])
random_transaction s d _ _ = (s, [])

-- Without nodes both look-ups fail: nothing is done.
unfoldable pub generate_random_transaction : Simulation → TxDraws → Acted
generate_random_transaction s d =
    random_transaction s d (get_elem? s.nodes d.sender) (get_elem? s.nodes d.receiver)

abbrev pub auto_payload : Blockchain → Blockchain → ℕ → Bytes
auto_payload a b now =
    codes "auto_ibc_" ++ (a.chain_id ++ (codes "_to_" ++ (b.chain_id ++ (b'_' ∷ to_string now))))

unfoldable pub random_packet : Simulation → ℕ → ℕ → Option Blockchain → Option Blockchain → Acted
random_packet s src now (some a) (some b) =
    let (s', status, es) = send_between s src a b (auto_payload a b now) in
    (
      s',
      es
          ++ inc_counter
              (if is_ok status then "traffic_ibc_tx_generated" else "traffic_ibc_tx_failed")
            ∷ [],
    )
random_packet s src now _ _ = (s, [])

unfoldable pub random_packet_to : Simulation → PacketDraws → Option ℕ → Option Acted
random_packet_to s d none = none
random_packet_to s d (some dst) =
    some (random_packet s d.source d.now (get_elem? s.chains d.source) (get_elem? s.chains dst))

-- `none`: the draws do not end the loop.
unfoldable pub generate_random_ibc_packet : Simulation → PacketDraws → Option Acted
generate_random_ibc_packet s d =
    if ltb (length s.chains) 2
    then some (s, [])
    else random_packet_to s d (redraw d.source d.destinations)

-- A round of `trafficGeneratorLoop` behind its sleep; a traffic generator that was stopped ends.
unfoldable pub traffic_round : Simulation → RoundDraws → Option Acted
traffic_round s d =
    if s.traffic_running
    then (if ltb (uniform 0 rate_one d.kind) s.cfg.ibc_traffic_ratio && leb 2 (length s.chains)
        then generate_random_ibc_packet s d.packet
        else some (generate_random_transaction s d.tx))
    else some (s, [])

-- What `injectTraffic` draws: the recipient, the clock and the transport for the `k`-th transaction of
-- the `i`-th node, and source and destinations of each packet.
pub record Injection : Type 0 where
  pub recipient : ℕ → ℕ → ℕ
  pub id_now : ℕ → ℕ → ℕ
  pub network : ℕ → ℕ → ℕ
  pub now : ℕ → ℕ → ℕ
  pub packets : ℕ → PacketDraws

abbrev regular_payload : SimNode → SimNode → ℕ → Bytes
regular_payload n to k =
    codes "regular_tx_from_"
    ++ (n.node.address ++ (codes "_to_" ++ (to.node.address ++ (codes "_seq_" ++ to_string k))))

unfoldable pub inject_one : Simulation → Injection → SimNode → ℕ → ℕ → Option SimNode → Acted
inject_one s d n i k none = (s, [])
inject_one s d n i k (some to) =
    create_and_submit s n to.node.address (regular_payload n to k) (d.id_now i k) (d.network i k)
      (d.now i k)

-- The `left` transactions of the `i`-th node from the `k`-th on.
unfoldable pub inject_some : ℕ → ℕ → Simulation → Injection → SimNode → ℕ → Acted
inject_some zero k s d n i = (s, [])
inject_some (suc left) k s d n i =
    let (s', es) = inject_one s d n i k (get_elem? s.nodes (d.recipient i k)) in
    let (s'', fs) = inject_some left (k + 1) s' d n i in (s'', es ++ fs)

unfoldable pub inject_nodes : List SimNode → ℕ → Simulation → Injection → Acted
inject_nodes [] i s d = (s, [])
inject_nodes (n ∷ nodes) i s d =
    let (s', es) = inject_some 5 0 s d n i in
    let (s'', fs) = inject_nodes nodes (i + 1) s' d in (s'', es ++ fs)

abbrev injected_payload : Blockchain → Blockchain → ℕ → Bytes
injected_payload a b i =
    codes "ibc_payload_from_"
    ++ (a.chain_id ++ (codes "_to_" ++ (b.chain_id ++ (codes "_seq_" ++ to_string i))))

unfoldable pub inject_packet : Simulation → ℕ → ℕ → Option Blockchain → Option Blockchain → Acted
inject_packet s src i (some a) (some b) =
    let (s', status, es) = send_between s src a b (injected_payload a b i) in (s', es)
inject_packet s src i _ _ = (s, [])

unfoldable pub inject_packet_to : Simulation → PacketDraws → ℕ → Option ℕ → Option Acted
inject_packet_to s d i none = none
inject_packet_to s d i (some dst) =
    some (inject_packet s d.source i (get_elem? s.chains d.source) (get_elem? s.chains dst))

-- The `left` packets from the `i`-th on.
abbrev pub then_more : Option Acted → (Simulation → Option Acted) → Option Acted
then_more none k = none
then_more (some (s, es)) k = elim (k s) [ none ↦ none | some (s', fs) ↦ some (s', es ++ fs) ]

unfoldable pub inject_packets : ℕ → ℕ → Simulation → Injection → Option Acted
inject_packets zero i s d = some (s, [])
inject_packets (suc left) i s d =
    then_more
      (inject_packet_to s (d.packets i) i (redraw (d.packets i).source (d.packets i).destinations))
      (λ s'. inject_packets left (i + 1) s' d)

unfoldable pub inject_traffic : Simulation → Injection → Option Acted
inject_traffic s d =
    let (s', es) = inject_nodes s.nodes 0 s d in
    if leb 2 (length s'.chains)
    then then_more (some (s', es)) (λ s''. inject_packets 2 0 s'' d)
    else some (s', es)
