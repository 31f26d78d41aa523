-- ===== src/Sim/Events/Count.antt =====
-- The number of relayers while the bus calls their handlers.
use interchain_communication.Prelude.{ℕ, zero, suc, ◌≡◌, refl, ap, ◌∙◌, List, [], ◌∷◌, length}
use interchain_communication.Core.EventBus.{Event, EventBus}
use interchain_communication.Core.Effect.{Effect, publishes, inc_counter}
use interchain_communication.Ibc.Relayer.{Subscribed}
use interchain_communication.Sim.Controller.{Handler, on_packet, on_ack}
use interchain_communication.Sim.Events.{at_position, call, call_all, react, settle}

at_position-length :
    (f : Subscribed Handler → Subscribed Handler × List Effect) (i : ℕ)
    (relayers : List (Subscribed Handler))
    → length (at_position f i relayers).0 ≡ length relayers
unfolding at_position
at_position-length f i [] = refl
at_position-length f zero (s ∷ relayers) = refl
at_position-length f (suc i) (s ∷ relayers) = ap suc (at_position-length f i relayers)

call-length :
    (e : Event) (h : Handler) (relayers : List (Subscribed Handler))
    → length (call e h relayers).0 ≡ length relayers
unfolding call
call-length e (on_packet r) relayers = at_position-length _ r relayers
call-length e (on_ack r) relayers = at_position-length _ r relayers

call_all-length :
    (e : Event) (hs : List Handler) (relayers : List (Subscribed Handler))
    → length (call_all e hs relayers).0 ≡ length relayers
unfolding call_all
call_all-length e [] relayers = refl
call_all-length e (h ∷ hs) relayers = call_all-length e hs _ ∙ call-length e h relayers

react-length :
    (bus : EventBus Handler) (e : Effect) (relayers : List (Subscribed Handler))
    → length (react bus e relayers).0 ≡ length relayers
unfolding react
react-length bus (publishes e) relayers = call_all-length e _ relayers
react-length bus (inc_counter name) relayers = refl
react-length bus _ relayers = refl

pub settle-length :
    (bus : EventBus Handler) (es : List Effect) (relayers : List (Subscribed Handler))
    → length (settle bus es relayers).0 ≡ length relayers
unfolding settle
settle-length bus [] relayers = refl
settle-length bus (e ∷ es) relayers = settle-length bus es _ ∙ react-length bus e relayers
