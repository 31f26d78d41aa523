-- ===== src/Sim/System/Sound.antt =====
-- What no turn of any thread changes: the bus, the number of chains and relayers, and that no channel
-- of a chain is closed.
use interchain_communication.Prelude.{
  ℕ, suc, ◌≡◌, refl, subst, List, [], ◌∷◌, Option, none, some, Bytes, bytes_eq, length, length-set,
  get_elem?, set, All, if_keeps, ◌&&◌, ap, ◌∙◌,
}
use interchain_communication.Util.Error.{Status}
use interchain_communication.Core.Blockchain.{Blockchain, open_ibc_channel}
use interchain_communication.Core.Blockchain.Channels.{IsSound}
use interchain_communication.Core.Blockchain.Reach.{open_ibc_channel-IsSound}
use interchain_communication.Core.Node
use interchain_communication.Core.Node.{Round, waits, exits, goes_on, dies}
use interchain_communication.Core.Node.Sound.{LeavesSound, run_round-LeavesSound}
use interchain_communication.Ibc.Relayer
use interchain_communication.Ibc.Relayer.{Subscribed, Draws}
use interchain_communication.Net.Transport.{Phase}
use interchain_communication.Sim.Controller.{
  Handler, SimNode, Simulation, open_on, open_ibc, is_chain,
}
use interchain_communication.Sim.Events.Count.{settle-length}
use interchain_communication.Sim.Traffic.{Acted, traffic_round, inject_traffic}
use interchain_communication.Sim.Traffic.Kept.{
  Like, Kept, KeptIf, set_chain, same_chains_kept, IsSound-at, traffic_round-KeptIf,
}
use interchain_communication.Sim.Traffic.Injected.{inject_traffic-KeptIf}
use interchain_communication.Sim.System.{
  World, after_node_round, round_on_chain, round_of_node, node_round, round_of_relayer,
  relayer_round, block_of_worker, worker_block, change_node, change_relayer, Step, node_works,
  relayer_works, worker_works, traffic_works, injects, opens, node_starts, node_stops,
  relayer_starts, relayer_stops, traffic_starts, traffic_stops, transport_stops, Reach, here, next,
}

open_on-IsSound :
    (chains : List Blockchain) (id port chan : Bytes)
    → All IsSound chains
    → All IsSound (open_on chains id port chan)
unfolding open_on
open_on-IsSound [] id port chan h = tt
open_on-IsSound (bc ∷ chains) id port chan (v, vs) =
    if_keeps (All IsSound) (bytes_eq bc.chain_id id) ((open_ibc_channel bc port chan).0 ∷ chains)
      (bc ∷ open_on chains id port chan) (open_ibc_channel-IsSound bc port chan v, vs)
      (v, open_on-IsSound chains id port chan vs)

open_on-length :
    (chains : List Blockchain) (id port chan : Bytes)
    → length (open_on chains id port chan) ≡ length chains
unfolding open_on
open_on-length [] id port chan = refl
open_on-length (bc ∷ chains) id port chan =
    if_keeps (λ cs. length cs ≡ length (bc ∷ chains)) (bytes_eq bc.chain_id id)
      ((open_ibc_channel bc port chan).0 ∷ chains) (bc ∷ open_on chains id port chan) refl
      (ap suc (open_on-length chains id port chan))

module _ (s0 : Simulation) where
  after_node_round-KeptIf :
      (s : Simulation) (i : ℕ) (n : SimNode) (r : Round)
      → Like s0 s
      → LeavesSound r
      → KeptIf s0 (after_node_round s i n r)
  unfolding after_node_round
  after_node_round-KeptIf s i n waits l v = l
  after_node_round-KeptIf s i n exits l v = l
  after_node_round-KeptIf s i n (goes_on n' bc es) l v =
      set_chain s0 {s = s} n.chain bc _ l v refl refl (settle-length s.bus es s.relayers)
  after_node_round-KeptIf s i n (dies e) l v = tt

  round_on_chain-KeptIf :
      (s : Simulation) (i : ℕ) (n : SimNode) (o : Option Blockchain)
      → Like s0 s
      → ((bc : Blockchain) → o ≡ some bc → IsSound bc)
      → KeptIf s0 (round_on_chain s i n o)
  unfolding round_on_chain
  round_on_chain-KeptIf s i n none l v = l
  round_on_chain-KeptIf s i n (some bc) l v =
      after_node_round-KeptIf s i n _ l (run_round-LeavesSound n.node bc (v bc refl))

  round_of_node-KeptIf :
      (s : Simulation) (i : ℕ) (o : Option SimNode) → Like s0 s → KeptIf s0 (round_of_node s i o)
  unfolding round_of_node
  round_of_node-KeptIf s i none l = l
  round_of_node-KeptIf s i (some n) l =
      round_on_chain-KeptIf s i n (get_elem? s.chains n.chain) l
        (λ bc. IsSound-at s0 {s = s} n.chain bc l)

  round_of_relayer-Kept :
      (s : Simulation) (i : ℕ) (o : Option (Subscribed Handler)) (u v : Draws) (now : ℕ)
      → Like s0 s
      → Kept s0 (round_of_relayer s i o u v now)
  unfolding round_of_relayer
  round_of_relayer-Kept s i none u v now l = l
  round_of_relayer-Kept s i (some r) u v now l =
      let (r', t, es) = Relayer.run_round r.relayer s.transport u v now in
      let s' : Simulation = record s {
        relayers = set s.relayers i (record r { relayer = r' });
        transport = t;
      } in
      if_keeps (Kept s0) r.relayer.running (s', es) (s, [])
        (same_chains_kept s0 {s = s} s' l refl refl (length-set s.relayers i _)) l

  block_of_worker-Like :
      (w : World) (i : ℕ) (o : Option (Phase ℕ)) (now : ℕ)
      → Like s0 w.sim
      → Like s0 (block_of_worker w i o now).sim
  unfolding block_of_worker
  block_of_worker-Like w i none now l = l
  block_of_worker-Like w i (some phase) now l = same_chains_kept s0 {s = w.sim} _ l refl refl refl

  change_node-Like :
      (f : Node.Node → Node.Node) (s : Simulation) (i : ℕ) (o : Option SimNode)
      → Like s0 s
      → Like s0 (change_node f s i o)
  unfolding change_node
  change_node-Like f s i none l = l
  change_node-Like f s i (some n) l = same_chains_kept s0 {s = s} _ l refl refl refl

  change_relayer-Like :
      (f : Relayer.Relayer → Relayer.Relayer) (s : Simulation) (i : ℕ)
      (o : Option (Subscribed Handler))
      → Like s0 s
      → Like s0 (change_relayer f s i o)
  unfolding change_relayer
  change_relayer-Like f s i none l = l
  change_relayer-Like f s i (some r) l =
      same_chains_kept s0 {s = s} _ l refl refl (length-set s.relayers i _)

  open_ibc-Like :
      (s : Simulation) (a port chan b port' chan' : Bytes)
      → Like s0 s
      → Like s0 (open_ibc s a port chan b port' chan').0
  unfolding open_ibc
  open_ibc-Like s a port chan b port' chan' l =
      let chains = open_on (open_on s.chains a port chan) b port' chan' in
      if_keeps (λ (r : Simulation × Status). Like s0 r.0)
        (is_chain s.chains a && is_chain s.chains b) _ _
        (record {
          sound = open_on-IsSound _ b port' chan' (open_on-IsSound s.chains a port chan l.sound);
          same_bus = l.same_bus;
          same_relayers = l.same_relayers;
          same_chains =
              open_on-length _ b port' chan' ∙ open_on-length s.chains a port chan ∙ l.same_chains;
        })
        l

  of_some : (o : Option Acted) {a : Acted} → KeptIf s0 o → o ≡ some a → Like s0 a.0
  of_some o k e = subst (KeptIf s0) e k

  Step-Like : {w w' : World} → Step w w' → Like s0 w.sim → Like s0 w'.sim
  unfolding node_round relayer_round worker_block
  Step-Like {w} (node_works i a e) l =
      of_some (node_round w.sim i) (round_of_node-KeptIf w.sim i (get_elem? w.sim.nodes i) l) e
  Step-Like {w} (relayer_works i u v now) l = round_of_relayer-Kept w.sim i _ u v now l
  Step-Like {w} (worker_works i now) l = block_of_worker-Like w i _ now l
  Step-Like {w} (traffic_works d a e) l =
      of_some (traffic_round w.sim d) (traffic_round-KeptIf s0 w.sim d l) e
  Step-Like {w} (injects d a e) l =
      of_some (inject_traffic w.sim d) (inject_traffic-KeptIf s0 w.sim d l) e
  Step-Like {w} (opens a port chan b port' chan') l =
      open_ibc-Like w.sim a port chan b port' chan' l
  Step-Like {w} (node_starts i) l = change_node-Like _ w.sim i _ l
  Step-Like {w} (node_stops i) l = change_node-Like _ w.sim i _ l
  Step-Like {w} (relayer_starts i) l = change_relayer-Like _ w.sim i _ l
  Step-Like {w} (relayer_stops i) l = change_relayer-Like _ w.sim i _ l
  Step-Like {w} traffic_starts l = same_chains_kept s0 {s = w.sim} _ l refl refl refl
  Step-Like {w} traffic_stops l = same_chains_kept s0 {s = w.sim} _ l refl refl refl
  Step-Like {w} (transport_stops drained) l = same_chains_kept s0 {s = w.sim} _ l refl refl refl

  pub Reach-Like : {w w' : World} → Reach w w' → Like s0 w.sim → Like s0 w'.sim
  Reach-Like here l = l
  Reach-Like (next r step) l = Step-Like step (Reach-Like r l)
