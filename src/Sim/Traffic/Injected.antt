-- ===== src/Sim/Traffic/Injected.antt =====
-- What the traffic that src/sim/SimulationController.cpp injects leaves alone, as what it generates.
use interchain_communication.Prelude.{
  ℕ, zero, suc, ◌≡◌, refl, List, [], ◌∷◌, ◌++◌, Option, none, some, length, get_elem?, if_keeps,
  leb, ◌+◌,
}
use interchain_communication.Core.Effect.{Effect}
use interchain_communication.Core.Blockchain.{Blockchain}
use interchain_communication.Core.Blockchain.Channels.{IsSound}
use interchain_communication.Sim.Controller.{SimNode, Simulation}
use interchain_communication.Sim.Traffic.{
  Acted, PacketDraws, Injection, inject_one, inject_some, inject_nodes, inject_packet,
  inject_packet_to, then_more, inject_packets, inject_traffic,
}
use interchain_communication.Sim.Traffic.Kept.{
  Like, Kept, KeptIf, create_and_submit-Kept, send_between-Kept, IsSound-at,
}

module _ (s0 : Simulation) where
  inject_one-Kept :
      (s : Simulation) (d : Injection) (n : SimNode) (i k : ℕ) (o : Option SimNode)
      → Like s0 s
      → Kept s0 (inject_one s d n i k o)
  unfolding inject_one
  inject_one-Kept s d n i k none l = l
  inject_one-Kept s d n i k (some to) l = create_and_submit-Kept s0 s n _ _ _ _ _ l

  inject_some-Kept :
      (left k : ℕ) (s : Simulation) (d : Injection) (n : SimNode) (i : ℕ)
      → Like s0 s
      → Kept s0 (inject_some left k s d n i)
  unfolding inject_some
  inject_some-Kept zero k s d n i l = l
  inject_some-Kept (suc left) k s d n i l =
      inject_some-Kept left (k + 1) _ d n i
        (inject_one-Kept s d n i k (get_elem? s.nodes (d.recipient i k)) l)

  inject_nodes-Kept :
      (nodes : List SimNode) (i : ℕ) (s : Simulation) (d : Injection)
      → Like s0 s
      → Kept s0 (inject_nodes nodes i s d)
  unfolding inject_nodes
  inject_nodes-Kept [] i s d l = l
  inject_nodes-Kept (n ∷ nodes) i s d l =
      inject_nodes-Kept nodes (i + 1) _ d (inject_some-Kept 5 0 s d n i l)

  inject_packet-Kept :
      (s : Simulation) (src i : ℕ) (a b : Option Blockchain)
      → Like s0 s
      → ((bc : Blockchain) → a ≡ some bc → IsSound bc)
      → Kept s0 (inject_packet s src i a b)
  unfolding inject_packet
  inject_packet-Kept s src i (some a) (some b) l v = send_between-Kept s0 s src a b _ l (v a refl)
  inject_packet-Kept s src i none b l v = l
  inject_packet-Kept s src i (some a) none l v = l

  inject_packet_to-KeptIf :
      (s : Simulation) (d : PacketDraws) (i : ℕ) (o : Option ℕ)
      → Like s0 s
      → KeptIf s0 (inject_packet_to s d i o)
  unfolding inject_packet_to
  inject_packet_to-KeptIf s d i none l = tt
  inject_packet_to-KeptIf s d i (some dst) l =
      inject_packet-Kept s d.source i (get_elem? s.chains d.source) _ l
        (λ bc. IsSound-at s0 {s = s} d.source bc l)

  append-KeptIf :
      (es : List Effect) (o : Option Acted)
      → KeptIf s0 o
      → KeptIf s0 (elim o [ none ↦ none | some (s', fs) ↦ some (s', es ++ fs) ])
  append-KeptIf es none l = tt
  append-KeptIf es (some (s', fs)) l = l

  then_more-KeptIf :
      (o : Option Acted) (k : Simulation → Option Acted)
      → KeptIf s0 o
      → ((s : Simulation) → Like s0 s → KeptIf s0 (k s))
      → KeptIf s0 (then_more o k)
  then_more-KeptIf none k l h = tt
  then_more-KeptIf (some (s, es)) k l h = append-KeptIf es (k s) (h s l)

  inject_packets-KeptIf :
      (left i : ℕ) (s : Simulation) (d : Injection)
      → Like s0 s
      → KeptIf s0 (inject_packets left i s d)
  unfolding inject_packets
  inject_packets-KeptIf zero i s d l = l
  inject_packets-KeptIf (suc left) i s d l =
      then_more-KeptIf _ _ (inject_packet_to-KeptIf s (d.packets i) i _ l)
        (λ s' l'. inject_packets-KeptIf left (i + 1) s' d l')

  pub inject_traffic-KeptIf :
      (s : Simulation) (d : Injection) → Like s0 s → KeptIf s0 (inject_traffic s d)
  unfolding inject_traffic
  inject_traffic-KeptIf s d l =
      let l' = inject_nodes-Kept s.nodes 0 s d l in
      if_keeps (KeptIf s0) (leb 2 (length (inject_nodes s.nodes 0 s d).0.chains))
        (then_more (some (inject_nodes s.nodes 0 s d)) (λ s'. inject_packets 2 0 s' d))
        (some (inject_nodes s.nodes 0 s d))
        (then_more-KeptIf (some (inject_nodes s.nodes 0 s d)) _ l'
          (λ s' m. inject_packets-KeptIf 2 0 s' d m))
        l'
