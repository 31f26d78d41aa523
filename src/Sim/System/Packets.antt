-- ===== src/Sim/System/Packets.antt =====
-- A packet that the traffic generator sends, in whatever state the running simulation is.
use interchain_communication.Prelude.{
  ℕ, zero, suc, ◌≤◌, ◌≡◌, ◌≢◌, refl, sym, ap, subst, ◌∙◌, Bool, true, false, List, [], ◌∷◌, ◌++◌,
  map, none, some, Bytes, codes, length, get_elem?, set, All, replicate, ltb, ==_iff, arith,
}
use interchain_communication.Util.Error.{returns, is_ok}
use interchain_communication.Ibc.Types.{IbcPacket}
use interchain_communication.Core.Effect.{
  Effect, inc_counter, detailed, logs_ibc_event, packet_created,
}
use interchain_communication.Core.Blockchain.{Blockchain, send_ibc, send_effects, make_channel_key}
use interchain_communication.Core.Blockchain.Channels.{IsSound, bumped_at, Updated}
use interchain_communication.Core.Blockchain.Sending.{packet_of, packet_of-IsPacket, send_ibc_lem}
use interchain_communication.Net.Transport.{at_head}
use interchain_communication.Consensus.Factory.{ChainConfig}
use interchain_communication.Sim.Controller.{SimulationConfig, Simulation, new_simulation, init}
use interchain_communication.Sim.Controller.Tuned.{IsTuned}
use interchain_communication.Sim.Controller.Ready.{init-IsReady}
use interchain_communication.Sim.Events.{settle}
use interchain_communication.Sim.Events.Broadcast.{offered, IsQuiet, settle_packet}
use interchain_communication.Sim.Traffic.{
  redraw, send_between, auto_payload, random_packet, random_packet_to, generate_random_ibc_packet,
}
use interchain_communication.Sim.Traffic.Kept.{IsSound-at}
use interchain_communication.Sim.System.{World, Reach}
use interchain_communication.Sim.System.Sound.{Reach-Like}

redraw_first :
    (src d : ℕ) (before behind : List ℕ)
    → All (λ x. x ≡ src) before
    → d ≢ src
    → redraw src (before ++ d ∷ behind) ≡ some d
unfolding redraw
redraw_first src d [] behind h n = ground (arith, n)
redraw_first src d (x ∷ before) behind (e, h) n =
    rw (e, (==_iff src src).1 refl) (redraw_first src d before behind h n)

redraw_same : (src : ℕ) (draws : List ℕ) → All (λ x. x ≡ src) draws → redraw src draws ≡ none
unfolding redraw
redraw_same src [] h = refl
redraw_same src (x ∷ draws) (e, h) = rw (e, (==_iff src src).1 refl) (redraw_same src draws h)

-- The loop that draws a destination ends with the first draw that is another chain than the source,
-- and goes on as long as all draws are the source; so with two chains or more the traffic generator
-- makes its packet exactly if some draw is another chain.
pub generate_ends :
    (s : Simulation) (src d now : ℕ) (before behind : List ℕ)
    → 2 ≤ length s.chains
    → All (λ x. x ≡ src) before
    → d ≢ src
    → (generate_random_ibc_packet s
          (record { source = src; destinations = before ++ d ∷ behind; now = now })
        ≡ some (random_packet s src now (get_elem? s.chains src) (get_elem? s.chains d)))
      × (generate_random_ibc_packet s (record { source = src; destinations = before; now = now })
          ≡ none)
unfolding generate_random_ibc_packet random_packet_to
generate_ends s src d now before behind two same other =
    let enough : ltb (length s.chains) 2 ≡ false = ground (arith, two) in
    (
      rw (enough, redraw_first src d before behind same other),
      rw (enough, redraw_same src before same),
    )

-- The packet that is sent between two chains on the fixed ports and channels.
abbrev pub traffic_packet : Blockchain → Blockchain → Bytes → IbcPacket
traffic_packet a b payload =
    packet_of a (codes "port-A") (codes "channel-A") b.chain_id (codes "port-B") (codes "channel-B")
      payload

abbrev pub traffic_key : Bytes
traffic_key = make_channel_key (codes "port-A") (codes "channel-A")

logged-IsQuiet :
    (b : Bool) (p : IbcPacket) → All IsQuiet (detailed b (logs_ibc_event packet_created p []))
logged-IsQuiet true p = (tt, tt)
logged-IsQuiet false p = tt

send_between_lem :
    (s : Simulation) (src : ℕ) (a b : Blockchain) (payload : Bytes)
    → IsSound a
    → IsTuned s.bus (length s.relayers)
    → let (s', status, es) = send_between s src a b payload in
      let p = traffic_packet a b payload in
      (a' : Blockchain) × (is_ok status ≡ true)
      × (s'.relayers ≡ map (offered p) s.relayers)
      × (s'.chains ≡ set s.chains src a')
      × Updated a traffic_key (bumped_at a (codes "port-A") (codes "channel-A")) a'
unfolding send_between send_effects
send_between_lem s src a b payload v t =
    let p = traffic_packet a b payload in
    let (a', r, es) =
      send_ibc a (codes "port-A") (codes "channel-A") b.chain_id (codes "port-B")
        (codes "channel-B") payload in
    let (made, fine, effects, updated) =
      send_ibc_lem a (codes "port-A") (codes "channel-A") b.chain_id (codes "port-B")
        (codes "channel-B") payload v in
    (
      a',
      fine,
      ap (λ fs. (settle s.bus fs s.relayers).0) effects
          ∙ settle_packet s.bus _ p _ s.relayers t (tt, logged-IsQuiet a'.has_logger p) refl refl
              (packet_of-IsPacket a _ _ _ _ _ payload v) refl,
      refl,
      updated,
    )

pub two_there :
    {A : Type 0} (xs : List A) (i j : ℕ) {a b : A}
    → get_elem? xs i ≡ some a
    → get_elem? xs j ≡ some b
    → i ≢ j
    → 2 ≤ length xs
two_there [] i j e f n = cc
two_there (x ∷ []) zero zero e f n = absurd (n refl)
two_there (x ∷ []) zero (suc j) e f n = cc
two_there (x ∷ []) (suc i) j e f n = cc
two_there (x ∷ y ∷ xs) i j e f n = omega arith

-- From the end of `init` on, whatever the threads have done since and in any order, the traffic
-- generator that draws a chain and then, once or later, another chain sends its packet: it counts a
-- generated packet, the counter of the source's channel moves on, no other channel and no other chain
-- changes, and of the relayers exactly those whose queue is not closed have the packet behind what
-- they had queued.
pub every_relayer_hears :
    (cfgs : List ChainConfig) (cfg : SimulationConfig) (s : Simulation) {w : World}
    (src dst now : ℕ) (before behind : List ℕ) (a b : Blockchain)
    → init (new_simulation cfgs cfg) ≡ returns s
    → Reach (record { sim = s; workers = replicate 4 at_head }) w
    → get_elem? w.sim.chains src ≡ some a
    → get_elem? w.sim.chains dst ≡ some b
    → All (λ x. x ≡ src) before
    → dst ≢ src
    → let p = traffic_packet a b (auto_payload a b now) in
      (s' : Simulation) × (es : List Effect) × (a' : Blockchain) × (generate_random_ibc_packet w.sim
          (record { source = src; destinations = before ++ dst ∷ behind; now = now })
        ≡ some (s', es ++ inc_counter "traffic_ibc_tx_generated" ∷ []))
      × (s'.relayers ≡ map (offered p) w.sim.relayers)
      × (s'.chains ≡ set w.sim.chains src a')
      × Updated a traffic_key (bumped_at a (codes "port-A") (codes "channel-A")) a'
unfolding random_packet
every_relayer_hears cfgs cfg s {w} src dst now before behind a b made reached at_src at_dst same
      other =
    let ready = init-IsReady cfgs cfg s made in
    let l =
      Reach-Like s reached (record {
        sound = ready.sound;
        same_bus = refl;
        same_relayers = refl;
        same_chains = refl;
      }) in
    let tuned : IsTuned w.sim.bus (length w.sim.relayers) =
      subst (λ bus. IsTuned bus (length w.sim.relayers)) (sym l.same_bus)
        (subst (IsTuned s.bus) (sym l.same_relayers) ready.tuned) in
    let two = two_there w.sim.chains src dst at_src at_dst (λ e. other (sym e)) in
    let (s', status, es) = send_between w.sim src a b (auto_payload a b now) in
    let (a', fine, heard, chains, updated) =
      send_between_lem w.sim src a b (auto_payload a b now)
        (IsSound-at s {s = w.sim} src a l at_src) tuned in
    (
      s',
      es,
      a',
      (generate_ends w.sim src dst now before behind two same other).0
          ∙ rw (at_src, at_dst, random_packet, fine),
      heard,
      chains,
      updated,
    )
