-- ===== src/Sim/Events.antt =====
-- The bus of the simulation at work: `EventBus::publish` (src/core/EventBus.cpp) calls the handlers
-- that the constructors of the relayers subscribed (src/ibc/Relayer.cpp), before it returns to the
-- chain that publishes.
pub mod Count
pub mod Broadcast
use interchain_communication.Prelude.{ℕ, zero, suc, List, [], ◌∷◌, ◌++◌}
use interchain_communication.Core.EventBus.{Event, EventBus, publish}
use interchain_communication.Core.Effect.{Effect, publishes}
use interchain_communication.Ibc.Relayer.{
  Subscribed, on_ibc_packet_send_event, on_ibc_ack_send_event,
}
use interchain_communication.Sim.Controller.{Handler, on_packet, on_ack}

abbrev pub Heard : Type 0
Heard = List (Subscribed Handler) × List Effect

-- The relayer at a position hears an event.
abbrev pub hear_packet : Event → Subscribed Handler → Subscribed Handler × List Effect
hear_packet e s =
    let (r, es) = on_ibc_packet_send_event s.relayer e in (record s { relayer = r }, es)

abbrev pub hear_ack : Event → Subscribed Handler → Subscribed Handler × List Effect
hear_ack e s = let (r, es) = on_ibc_ack_send_event s.relayer e in (record s { relayer = r }, es)

unfoldable pub at_position :
    (Subscribed Handler → Subscribed Handler × List Effect) → ℕ → List (Subscribed Handler) → Heard
at_position f i [] = ([], [])
at_position f zero (s ∷ relayers) = let (s', es) = f s in (s' ∷ relayers, es)
at_position f (suc i) (s ∷ relayers) =
    let (relayers', es) = at_position f i relayers in (s ∷ relayers', es)

-- A call of one of the two lambdas that `Relayer::Relayer` subscribes.
unfoldable pub call : Event → Handler → List (Subscribed Handler) → Heard
unfolding at_position
call e (on_packet r) relayers = at_position (hear_packet e) r relayers
call e (on_ack r) relayers = at_position (hear_ack e) r relayers

-- The loop of `publish` over the handlers.
unfoldable pub call_all : Event → List Handler → List (Subscribed Handler) → Heard
call_all e [] relayers = (relayers, [])
call_all e (h ∷ hs) relayers =
    let (relayers', es) = call e h relayers in
    let (relayers'', fs) = call_all e hs relayers' in (relayers'', es ++ fs)

unfoldable pub react : EventBus Handler → Effect → List (Subscribed Handler) → Heard
react bus (publishes e) relayers = call_all e (publish bus e) relayers
react bus _ relayers = (relayers, [])

-- The effects of a method, with those of the handlers that its events call behind each event.
unfoldable pub settle : EventBus Handler → List Effect → List (Subscribed Handler) → Heard
settle bus [] relayers = (relayers, [])
settle bus (e ∷ es) relayers =
    let (relayers', fs) = react bus e relayers in
    let (relayers'', gs) = settle bus es relayers' in (relayers'', e ∷ (fs ++ gs))
