-- ===== src/Core/EventBus.antt =====
-- src/core/EventBus.h and EventBus.cpp. The bus is generic in its handlers; `publish` returns the
-- handlers that it calls, in order, and the caller runs them. Each method is one step under the
-- bus's mutex. The tokens are an `int`, whose overflow the source leaves undefined: they are
-- numbers here.
pub mod Laws
use interchain_communication.Prelude.{
  ℕ, ◌+◌, Bool, true, false, List, [], ◌∷◌, ◌++◌, map, Bytes, ◌==◌, if◌then◌else◌,
}

pub data EventKind : Type 0 where
  block_proposed block_finalized ibc_packet_send ibc_packet_recv ibc_ack_send ibc_ack_recv :
      EventKind
  consensus_round network_drop error : EventKind

pub record Event : Type 0 where
  pub kind : EventKind
  pub chain_id : Bytes
  pub node_id : Bytes
  pub detail : Bytes

-- The underlying value of an `EventKind`, by which keys of `subs_` are compared.
abbrev pub kind_value : EventKind → ℕ
kind_value block_proposed = 0
kind_value block_finalized = 1
kind_value ibc_packet_send = 2
kind_value ibc_packet_recv = 3
kind_value ibc_ack_send = 4
kind_value ibc_ack_recv = 5
kind_value consensus_round = 6
kind_value network_drop = 7
kind_value error = 8

abbrev pub same_kind : EventKind → EventKind → Bool
same_kind a b = kind_value a == kind_value b

abbrev pub Subscribers : Type 0 → Type 0
Subscribers H = List (ℕ × H)

pub record EventBus (H : Type 0) : Type 0 where
  pub next_token : ℕ
  pub subs : List (EventKind × Subscribers H)

module _ {H : Type 0} where
  unfoldable pub new_bus : EventBus H
  new_bus = record { next_token = 1; subs = [] }

  -- `subs_[kind].emplace_back(token, h)`.
  unfoldable pub emplace :
      EventKind → ℕ × H → List (EventKind × Subscribers H) → List (EventKind × Subscribers H)
  emplace kind entry [] = (kind, entry ∷ []) ∷ []
  emplace kind entry ((k, v) ∷ rest) =
      if same_kind k kind then (k, v ++ entry ∷ []) ∷ rest else (k, v) ∷ emplace kind entry rest

  unfoldable pub subscribe : EventBus H → EventKind → H → EventBus H × ℕ
  unfolding emplace
  subscribe bus kind h =
      let token = bus.next_token in
      (record { next_token = token + 1; subs = emplace kind (token, h) bus.subs }, token)

  unfoldable pub has_token : ℕ → Subscribers H → Bool
  has_token token [] = false
  has_token token ((t, h) ∷ v) = if t == token then true else has_token token v

  -- `remove_if` and `erase` over one vector.
  unfoldable pub without_token : ℕ → Subscribers H → Subscribers H
  without_token token [] = []
  without_token token ((t, h) ∷ v) =
      let rest = without_token token v in if t == token then rest else (t, h) ∷ rest

  -- The walk over the map, which stops at the first vector that held the token.
  unfoldable pub erase_token :
      ℕ → List (EventKind × Subscribers H) → List (EventKind × Subscribers H)
  unfolding has_token without_token
  erase_token token [] = []
  erase_token token ((k, v) ∷ rest) =
      if has_token token v
      then (k, without_token token v) ∷ rest
      else (k, v) ∷ erase_token token rest

  unfoldable pub unsubscribe : EventBus H → ℕ → EventBus H
  unfolding erase_token
  unsubscribe bus token = record bus { subs = erase_token token bus.subs }

  -- `subs_.find(kind)`: the vector of the kind, empty if there is none.
  unfoldable pub subscribers : EventKind → List (EventKind × Subscribers H) → Subscribers H
  subscribers kind [] = []
  subscribers kind ((k, v) ∷ rest) = if same_kind k kind then v else subscribers kind rest

  unfoldable pub publish : EventBus H → Event → List H
  unfolding subscribers
  publish bus e = map (λ entry. entry.1) (subscribers e.kind bus.subs)
