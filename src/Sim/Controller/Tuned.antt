-- ===== src/Sim/Controller/Tuned.antt =====
-- The bus and the relayers that `init` makes (src/sim/SimulationController.cpp): whom the relayers
-- subscribe for packets and acknowledgements.
use interchain_communication.Prelude.{
  ℕ, zero, suc, ◌+◌, ◌≤◌, ◌≡◌, refl, ap, subst, ◌∙◌, true, false, List, [], ◌∷◌, ◌++◌, append-nil,
  Bytes, codes, length, length-append, leb, if◌then◌else◌, Bool-cases, inl, inr, All-append, arith,
}
use interchain_communication.Util.Decimal.{to_string}
use interchain_communication.Core.EventBus.{
  EventKind, Event, ibc_packet_send, ibc_ack_send, EventBus, same_kind, subscribe, publish,
}
use interchain_communication.Core.EventBus.Laws.{IsFresh, subscribe_lem}
use interchain_communication.Ibc.Relayer.{
  Subscribed, new_relayer, subscribe_relayer, connect_chain_mailbox,
}
use interchain_communication.Sim.Controller.{
  Handler, on_packet, on_ack, Relayers, make_relayer, make_relayers, connect_relayers,
}
use interchain_communication.Sim.Controller.Wiring.{length-make_relayer}
use interchain_communication.Sim.Controller.Running.{RelayersRun}

-- The handlers of the `n` relayers from the `k`-th on.
unfoldable pub handlers_from : (ℕ → Handler) → ℕ → ℕ → List Handler
handlers_from h k zero = []
handlers_from h k (suc n) = h k ∷ handlers_from h (suc k) n

handlers_from-snoc :
    (h : ℕ → Handler) (k n m : ℕ)
    → k + n ≡ m
    → handlers_from h k n ++ h m ∷ [] ≡ handlers_from h k (suc n)
unfolding handlers_from
handlers_from-snoc h k zero m e = ap (λ j. h j ∷ []) (omega (arith, e))
handlers_from-snoc h k (suc n) m e =
    ap (λ hs. h k ∷ hs) (handlers_from-snoc h (suc k) n m (omega (arith, e)))

-- The bus calls the first handler of each of `n` relayers, in order, for a packet that is sent, and
-- the second for an acknowledgement.
pub record IsTuned (bus : EventBus Handler) (n : ℕ) : Type 0 where
  pub fresh : IsFresh bus
  pub packets : (e : Event) → e.kind ≡ ibc_packet_send → publish bus e ≡ handlers_from on_packet 0 n
  pub acks : (e : Event) → e.kind ≡ ibc_ack_send → publish bus e ≡ handlers_from on_ack 0 n

-- Of the two handlers that a relayer subscribes, an event calls the one of its kind.
abbrev behind : EventKind → Handler → Handler → List Handler → List Handler
behind kind a b hs =
    (hs ++ (if same_kind ibc_packet_send kind then a ∷ [] else []))
    ++ (if same_kind ibc_ack_send kind then b ∷ [] else [])

packet_behind :
    (kind : EventKind) (a b : Handler) (hs : List Handler)
    → kind ≡ ibc_packet_send
    → behind kind a b hs ≡ hs ++ a ∷ []
packet_behind kind a b hs e = rw e (append-nil (hs ++ a ∷ []))

ack_behind :
    (kind : EventKind) (a b : Handler) (hs : List Handler)
    → kind ≡ ibc_ack_send
    → behind kind a b hs ≡ hs ++ b ∷ []
ack_behind kind a b hs e = rw e (ap (λ xs. xs ++ b ∷ []) (append-nil hs))

subscribed-publish :
    (bus : EventBus Handler) (name : Bytes) (a b : Handler) (e : Event)
    → IsFresh bus
    → IsFresh (subscribe_relayer name true bus a b).bus
      × (publish (subscribe_relayer name true bus a b).bus e ≡ behind e.kind a b (publish bus e))
unfolding subscribe_relayer
subscribed-publish bus name a b e fresh =
    let (fresh', first, _) = subscribe_lem bus ibc_packet_send a e fresh in
    let (fresh'', second, _) =
      subscribe_lem (subscribe bus ibc_packet_send a).0 ibc_ack_send b e fresh' in
    (
      fresh'',
      second ∙ ap (λ hs. hs ++ (if same_kind ibc_ack_send e.kind then b ∷ [] else [])) first,
    )

any_event : Event
any_event = record { kind = ibc_packet_send; chain_id = []; node_id = []; detail = [] }

subscribed-IsTuned :
    (bus : EventBus Handler) (n : ℕ) (name : Bytes)
    → IsTuned bus n
    → IsTuned (subscribe_relayer name true bus (on_packet n) (on_ack n)).bus (suc n)
subscribed-IsTuned bus n name t =
    let calls = λ (e : Event). subscribed-publish bus name (on_packet n) (on_ack n) e t.fresh in
    record {
      fresh = (calls any_event).0;
      packets = λ e k.
          (calls e).1
          ∙ packet_behind e.kind _ _ (publish bus e) k
          ∙ ap (λ hs. hs ++ on_packet n ∷ []) (t.packets e k)
          ∙ handlers_from-snoc on_packet 0 n n (omega arith);
      acks = λ e k.
          (calls e).1
          ∙ ack_behind e.kind _ _ (publish bus e) k
          ∙ ap (λ hs. hs ++ on_ack n ∷ []) (t.acks e k)
          ∙ handlers_from-snoc on_ack 0 n n (omega arith);
    }

abbrev pub TunedTo : Relayers → Type 0
TunedTo rs = IsTuned rs.1 (length rs.0)

unfoldable pub Idle : Relayers → Type 0
Idle rs = RelayersRun false rs.0

make_relayer-Idle : (r : ℕ) (rs : Relayers) → Idle rs → Idle (make_relayer r rs)
unfolding make_relayer Idle subscribe_relayer new_relayer
make_relayer-Idle r (relayers, bus) h = elim (Bool-cases (leb (length relayers) r)) [
  | inl new ↦ rw new (All-append _ relayers _ h (refl, tt))
  | inr old ↦ rw old h
]

pub make_relayers-Idle : (count r : ℕ) (rs : Relayers) → Idle rs → Idle (make_relayers count r rs)
unfolding make_relayers
make_relayers-Idle zero r rs h = h
make_relayers-Idle (suc count) r rs h =
    make_relayers-Idle count (r + 1) (make_relayer r rs) (make_relayer-Idle r rs h)

pub connect_relayers-Run :
    (count : ℕ) (chain_id address : Bytes) (relayers : List (Subscribed Handler))
    → RelayersRun false relayers
    → RelayersRun false (connect_relayers count chain_id address relayers)
unfolding connect_relayers connect_chain_mailbox
connect_relayers-Run zero chain_id address relayers h = h
connect_relayers-Run (suc count) chain_id address [] h = tt
connect_relayers-Run (suc count) chain_id address (s ∷ relayers) (h, hs) =
    (h, connect_relayers-Run count chain_id address relayers hs)

make_relayer-Tuned :
    (r : ℕ) (rs : Relayers) → r ≤ length rs.0 → TunedTo rs → TunedTo (make_relayer r rs)
unfolding make_relayer
make_relayer-Tuned r (relayers, bus) le t = elim (Bool-cases (leb (length relayers) r)) [
  | inl new ↦
      let same : length relayers ≡ r = ground (arith, le, new) in
      let s =
        subscribe_relayer (codes "relayer-" ++ to_string r) true bus (on_packet r) (on_ack r) in
      rw new (
        subst (IsTuned s.bus) (omega (arith, length-append relayers (s ∷ []), same))
          (subscribed-IsTuned bus r _ (subst (IsTuned bus) same t)))
  | inr old ↦ rw old t
]

pub make_relayers-Tuned :
    (count r : ℕ) (rs : Relayers)
    → r ≤ length rs.0
    → TunedTo rs
    → TunedTo (make_relayers count r rs)
unfolding make_relayers
make_relayers-Tuned zero r rs le t = t
make_relayers-Tuned (suc count) r rs le t =
    make_relayers-Tuned count (r + 1) (make_relayer r rs)
      (ground (arith, le, length-make_relayer r rs)) (make_relayer-Tuned r rs le t)

pub connect_relayers-length :
    (count : ℕ) (chain_id address : Bytes) (relayers : List (Subscribed Handler))
    → length (connect_relayers count chain_id address relayers) ≡ length relayers
unfolding connect_relayers
connect_relayers-length zero chain_id address relayers = refl
connect_relayers-length (suc count) chain_id address [] = refl
connect_relayers-length (suc count) chain_id address (s ∷ relayers) =
    ap suc (connect_relayers-length count chain_id address relayers)
