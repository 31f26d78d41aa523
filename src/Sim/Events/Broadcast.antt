-- ===== src/Sim/Events/Broadcast.antt =====
-- An event on the bus of the simulation, and all relayers that hear it.
use interchain_communication.Prelude.{
  ℕ, zero, suc, ◌≡◌, refl, sym, ap, ◌∙◌, List, [], ◌∷◌, map, length, All, if◌then◌else◌, Bool-cases,
  inl, inr,
}
use interchain_communication.Util.Queue.{push}
use interchain_communication.Ibc.Types.{IbcPacket, IsPacket, data_packet, serialize}
use interchain_communication.Ibc.Types.RoundTrip.{deserialize-serialize}
use interchain_communication.Core.EventBus.{Event, EventBus, ibc_packet_send, publish}
use interchain_communication.Core.Effect.{Effect, publishes, inc_counter}
use interchain_communication.Ibc.Relayer.{
  Subscribed, queue_packet, packet_arrives, packet_read, on_ibc_packet_send_event,
}
use interchain_communication.Ibc.Relayer.Events.{with_packet}
use interchain_communication.Sim.Controller.{Handler, on_packet}
use interchain_communication.Sim.Controller.Tuned.{handlers_from, IsTuned}
use interchain_communication.Sim.Events.{
  Heard, hear_packet, at_position, call, call_all, react, settle,
}

abbrev Hears : Type 0
Hears = Subscribed Handler → Subscribed Handler × List Effect

module _ (e : Event) (h : ℕ → Handler) (f : Hears) where
  abbrev Calls : Type 0
  Calls = (i : ℕ) (rs : List (Subscribed Handler)) → call e (h i) rs ≡ at_position f i rs

  later_relayers :
      (n k : ℕ) (s : Subscribed Handler) (rs : List (Subscribed Handler))
      → Calls
      → (call_all e (handlers_from h (suc k) n) (s ∷ rs)).0
        ≡ s ∷ (call_all e (handlers_from h k n) rs).0
  unfolding handlers_from call_all at_position
  later_relayers zero k s rs c = refl
  later_relayers (suc n) k s rs c =
      ap (λ (r : Heard). (call_all e (handlers_from h (suc (suc k)) n) r.0).0) (c (suc k) (s ∷ rs))
      ∙ later_relayers n (suc k) s (at_position f k rs).0 c
      ∙ ap (λ (r : Heard). s ∷ (call_all e (handlers_from h (suc k) n) r.0).0) (sym (c k rs))

  all_hear :
      (rs : List (Subscribed Handler))
      → Calls
      → (call_all e (handlers_from h 0 (length rs)) rs).0 ≡ map (λ s. (f s).0) rs
  unfolding handlers_from call_all at_position
  all_hear [] c = refl
  all_hear (s ∷ rs) c =
      ap (λ (r : Heard). (call_all e (handlers_from h 1 (length rs)) r.0).0) (c 0 (s ∷ rs))
      ∙ later_relayers (length rs) 0 (f s).0 rs c
      ∙ ap (λ ss. (f s).0 ∷ ss) (all_hear rs c)

-- The relayer once it has heard of a packet: an open queue holds it behind all others.
abbrev pub offered : IbcPacket → Subscribed Handler → Subscribed Handler
offered p s = record s {
  relayer = if s.relayer.pending_packets.is_closed then s.relayer else with_packet s.relayer p;
}

hear_packet-offered :
    (e : Event) (p : IbcPacket) (s : Subscribed Handler)
    → e.detail ≡ serialize p
    → IsPacket p
    → p.type ≡ data_packet
    → (hear_packet e s).0 ≡ offered p s
unfolding on_ibc_packet_send_event packet_read packet_arrives queue_packet push
hear_packet-offered e p s detail v is_data = elim (Bool-cases s.relayer.pending_packets.is_closed) [
  | inl closed ↦ rw (detail, deserialize-serialize p v, is_data, closed)
  | inr open_queue ↦ rw (detail, deserialize-serialize p v, is_data, open_queue)
]

all_offered :
    (e : Event) (p : IbcPacket) (rs : List (Subscribed Handler))
    → e.detail ≡ serialize p
    → IsPacket p
    → p.type ≡ data_packet
    → map (λ s. (hear_packet e s).0) rs ≡ map (offered p) rs
all_offered e p [] detail v is_data = refl
all_offered e p (s ∷ rs) detail v is_data =
    rw (hear_packet-offered e p s detail v is_data, all_offered e p rs detail v is_data)

-- Effects that publish nothing.
abbrev pub IsQuiet : Effect → Type 0
IsQuiet (publishes e) = ⊥
IsQuiet _ = Unit

react_quiet :
    (bus : EventBus Handler) (e : Effect) (rs : List (Subscribed Handler))
    → IsQuiet e
    → (react bus e rs).0 ≡ rs
unfolding react
react_quiet bus (publishes e) rs q = absurd q
react_quiet bus (inc_counter name) rs q = refl
react_quiet bus _ rs q = refl

settle_quiet :
    (bus : EventBus Handler) (es : List Effect) (rs : List (Subscribed Handler))
    → All IsQuiet es
    → (settle bus es rs).0 ≡ rs
unfolding settle
settle_quiet bus [] rs q = refl
settle_quiet bus (e ∷ es) rs (q, qs) =
    ap (λ ss. (settle bus es ss).0) (react_quiet bus e rs q) ∙ settle_quiet bus es rs qs

-- The event of a sent packet, with quiet effects behind it, offers the packet to every relayer.
pub settle_packet :
    (bus : EventBus Handler) (e : Event) (p : IbcPacket) (es : List Effect)
    (rs : List (Subscribed Handler))
    → IsTuned bus (length rs)
    → All IsQuiet es
    → e.kind ≡ ibc_packet_send
    → e.detail ≡ serialize p
    → IsPacket p
    → p.type ≡ data_packet
    → (settle bus (publishes e ∷ es) rs).0 ≡ map (offered p) rs
unfolding settle react call
settle_packet bus e p es rs t quiet kind detail v is_data =
    settle_quiet bus es (call_all e (publish bus e) rs).0 quiet
    ∙ ap (λ hs. (call_all e hs rs).0) (t.packets e kind)
    ∙ all_hear e on_packet (hear_packet e) rs (λ i ss. refl)
    ∙ all_offered e p rs detail v is_data
