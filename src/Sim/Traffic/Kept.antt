-- ===== src/Sim/Traffic/Kept.antt =====
-- What the traffic of src/sim/SimulationController.cpp leaves alone: the bus, the number of chains and
-- relayers, and the state of the channels.
use interchain_communication.Prelude.{
  ℕ, ◌≡◌, refl, sym, ap, subst, ◌∙◌, [], Option, none, some, Bytes, length, length-set, get_elem?,
  set, All, All-set, All-get_elem?, if_keeps, if◌then◌else◌, ltb, leb, ◌&&◌,
}
use interchain_communication.Core.Transaction.{Transaction}
use interchain_communication.Core.Blockchain.{Blockchain}
use interchain_communication.Core.Blockchain.Channels.{IsSound}
use interchain_communication.Core.Blockchain.Sending.{send_ibc-IsSound}
use interchain_communication.Core.Blockchain.Reach.{same_channels}
use interchain_communication.Core.Node.{submit_transaction}
use interchain_communication.Net.Transport.{uniform, rate_one}
use interchain_communication.Sim.Controller.{SimNode, Simulation}
use interchain_communication.Sim.Traffic.{
  Acted, submit, create_and_submit, send_between, TxDraws, PacketDraws, RoundDraws,
  random_transaction, generate_random_transaction, random_packet, random_packet_to,
  generate_random_ibc_packet, redraw, traffic_round,
}
use interchain_communication.Sim.Events.Count.{settle-length}

-- What `s` has kept of `s0`.
pub record Like (s0 s : Simulation) : Type 0 where
  pub sound : All IsSound s.chains
  pub same_bus : s.bus ≡ s0.bus
  pub same_relayers : length s.relayers ≡ length s0.relayers
  pub same_chains : length s.chains ≡ length s0.chains

module _ (s0 : Simulation) where
  abbrev pub Kept : Acted → Type 0
  Kept a = Like s0 a.0

  abbrev pub KeptIf : Option Acted → Type 0
  KeptIf none = Unit
  KeptIf (some a) = Kept a

  pub set_chain :
      {s : Simulation} (i : ℕ) (bc : Blockchain) (s' : Simulation)
      → Like s0 s
      → IsSound bc
      → s'.chains ≡ set s.chains i bc
      → s'.bus ≡ s.bus
      → length s'.relayers ≡ length s.relayers
      → Like s0 s'
  set_chain {s} i bc s' l v chains bus relayers = record {
    sound = subst (All IsSound) (sym chains) (All-set IsSound s.chains i bc l.sound v);
    same_bus = bus ∙ l.same_bus;
    same_relayers = relayers ∙ l.same_relayers;
    same_chains = ap length chains ∙ length-set s.chains i bc ∙ l.same_chains;
  }

  pub same_chains_kept :
      {s : Simulation} (s' : Simulation)
      → Like s0 s
      → s'.chains ≡ s.chains
      → s'.bus ≡ s.bus
      → length s'.relayers ≡ length s.relayers
      → Like s0 s'
  same_chains_kept s' l chains bus relayers = record {
    sound = subst (All IsSound) (sym chains) l.sound;
    same_bus = bus ∙ l.same_bus;
    same_relayers = relayers ∙ l.same_relayers;
    same_chains = ap length chains ∙ l.same_chains;
  }

  submit-Kept :
      (s : Simulation) (n : SimNode) (o : Option Blockchain) (tx : Transaction) (u now : ℕ)
      → Like s0 s
      → ((bc : Blockchain) → o ≡ some bc → IsSound bc)
      → Kept (submit s n o tx u now)
  unfolding submit submit_transaction
  submit-Kept s n none tx u now l v = l
  submit-Kept s n (some bc) tx u now l v =
      set_chain {s = s} n.chain _ _ l (same_channels {bc = bc} refl refl (v bc refl)) refl refl refl

  pub IsSound-at :
      {s : Simulation} (i : ℕ) (bc : Blockchain)
      → Like s0 s
      → get_elem? s.chains i ≡ some bc
      → IsSound bc
  IsSound-at {s} i bc l e = All-get_elem? IsSound s.chains i bc l.sound e

  pub create_and_submit-Kept :
      (s : Simulation) (n : SimNode) (to payload : Bytes) (id_now u now : ℕ)
      → Like s0 s
      → Kept (create_and_submit s n to payload id_now u now)
  unfolding create_and_submit
  create_and_submit-Kept s n to payload id_now u now l =
      submit-Kept _ n (get_elem? s.chains n.chain) _ u now
        (same_chains_kept {s = s} _ l refl refl refl) (λ bc. IsSound-at {s = s} n.chain bc l)

  random_transaction-Kept :
      (s : Simulation) (d : TxDraws) (a b : Option SimNode)
      → Like s0 s
      → Kept (random_transaction s d a b)
  unfolding random_transaction
  random_transaction-Kept s d (some n) (some to) l = create_and_submit-Kept s n _ _ _ _ _ l
  random_transaction-Kept s d none b l = l
  random_transaction-Kept s d (some n) none l = l

  pub send_between-Kept :
      (s : Simulation) (src : ℕ) (a b : Blockchain) (payload : Bytes)
      → Like s0 s
      → IsSound a
      → Like s0 (send_between s src a b payload).0
  unfolding send_between
  send_between-Kept s src a b payload l v =
      set_chain {s = s} src _ _ l (send_ibc-IsSound a _ _ _ _ _ payload v) refl refl
        (settle-length s.bus _ s.relayers)

  random_packet-Kept :
      (s : Simulation) (src now : ℕ) (a b : Option Blockchain)
      → Like s0 s
      → ((bc : Blockchain) → a ≡ some bc → IsSound bc)
      → Kept (random_packet s src now a b)
  unfolding random_packet
  random_packet-Kept s src now (some a) (some b) l v = send_between-Kept s src a b _ l (v a refl)
  random_packet-Kept s src now none b l v = l
  random_packet-Kept s src now (some a) none l v = l

  random_packet_to-KeptIf :
      (s : Simulation) (d : PacketDraws) (o : Option ℕ)
      → Like s0 s
      → KeptIf (random_packet_to s d o)
  unfolding random_packet_to
  random_packet_to-KeptIf s d none l = tt
  random_packet_to-KeptIf s d (some dst) l =
      random_packet-Kept s d.source d.now (get_elem? s.chains d.source) _ l
        (λ bc. IsSound-at {s = s} d.source bc l)

  pub traffic_round-KeptIf :
      (s : Simulation) (d : RoundDraws) → Like s0 s → KeptIf (traffic_round s d)
  unfolding traffic_round generate_random_ibc_packet generate_random_transaction
  traffic_round-KeptIf s d l =
      let packet = random_packet_to s d.packet (redraw d.packet.source d.packet.destinations) in
      let few = ltb (length s.chains) 2 in
      if_keeps KeptIf s.traffic_running
        (if ltb (uniform 0 rate_one d.kind) s.cfg.ibc_traffic_ratio && leb 2 (length s.chains)
          then (if few then some (s, []) else packet)
          else some (generate_random_transaction s d.tx))
        (some (s, []))
        (if_keeps KeptIf
          (ltb (uniform 0 rate_one d.kind) s.cfg.ibc_traffic_ratio && leb 2 (length s.chains))
          (if few then some (s, []) else packet) (some (generate_random_transaction s d.tx))
          (if_keeps KeptIf few (some (s, [])) packet l (random_packet_to-KeptIf s d.packet _ l))
          (random_transaction-Kept s d.tx (get_elem? s.nodes d.tx.sender)
            (get_elem? s.nodes d.tx.receiver) l))
        l
