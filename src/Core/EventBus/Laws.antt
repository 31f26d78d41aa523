-- ===== src/Core/EventBus/Laws.antt =====
-- Who hears an event (src/core/EventBus.cpp).
use interchain_communication.Prelude.{
  ℕ, ◌+◌, ◌<◌, ◌≡◌, refl, sym, ap, ◌∙◌, Bool, true, false, List, [], ◌∷◌, ◌++◌, append-nil, map,
  All, All-append, ◌==◌, ==_iff, if◌then◌else◌, if_keeps, Bool-cases, inl, inr, arith,
}
use interchain_communication.Core.EventBus.{
  EventKind, Event, kind_value, same_kind, Subscribers, EventBus, emplace, subscribe, has_token,
  without_token, erase_token, unsubscribe, subscribers, publish,
}

kinds_same : (j kind k : EventKind) → same_kind j kind ≡ true → same_kind j k ≡ same_kind kind k
kinds_same j kind k h = ap (λ n. n == kind_value k) ((==_iff _ _).0 h)

kinds_differ :
    (j kind k : EventKind)
    → same_kind j kind ≡ false
    → same_kind j k ≡ true
    → same_kind kind k ≡ false
kinds_differ j kind k h h' = ground (
  arith,
  ==_iff (kind_value j) (kind_value kind),
  ==_iff (kind_value j) (kind_value k),
  ==_iff (kind_value kind) (kind_value k),
  h,
  h',
)

module _ {H : Type 0} where
  abbrev Below : ℕ → Subscribers H → Type 0
  Below n = All (λ entry. entry.0 < n)

  abbrev AllBelow : ℕ → List (EventKind × Subscribers H) → Type 0
  AllBelow n = All (λ slot. Below n slot.1)

  -- The next token is none that is in use.
  abbrev pub IsFresh : EventBus H → Type 0
  IsFresh bus = AllBelow bus.next_token bus.subs

  wider : (n : ℕ) (v : Subscribers H) → Below n v → Below (n + 1) v
  wider n [] b = tt
  wider n (x ∷ v) (b, bs) = (omega (arith, b), wider n v bs)

  wider_all :
      (n : ℕ) (subs : List (EventKind × Subscribers H)) → AllBelow n subs → AllBelow (n + 1) subs
  wider_all n [] b = tt
  wider_all n (x ∷ subs) (b, bs) = (wider n x.1 b, wider_all n subs bs)

  without_new :
      (n : ℕ) (h : H) (v : Subscribers H) → Below n v → without_token n (v ++ (n, h) ∷ []) ≡ v
  unfolding without_token
  without_new n h [] b = ground arith
  without_new n h ((t, g) ∷ v) (b, bs) = ground (arith, b, without_new n h v bs)

  has_new : (n : ℕ) (h : H) (v : Subscribers H) → has_token n (v ++ (n, h) ∷ []) ≡ true
  unfolding has_token
  has_new n h [] = ground arith
  has_new n h ((t, g) ∷ v) = ground (arith, has_new n h v)

  lacks_new : (n : ℕ) (v : Subscribers H) → Below n v → has_token n v ≡ false
  unfolding has_token
  lacks_new n [] b = refl
  lacks_new n ((t, g) ∷ v) (b, bs) = ground (arith, b, lacks_new n v bs)

  emplaced :
      (kind k : EventKind) (entry : ℕ × H) (subs : List (EventKind × Subscribers H))
      → subscribers k (emplace kind entry subs)
        ≡ subscribers k subs ++ (if same_kind kind k then entry ∷ [] else [])
  unfolding subscribers emplace
  emplaced kind k entry [] = refl
  emplaced kind k entry ((j, v) ∷ rest) = elim (Bool-cases (same_kind j kind)) [
    | inl same ↦ rw (same, kinds_same j kind k same) (push_in (same_kind kind k) v)
    | inr differs ↦ elim (Bool-cases (same_kind j k)) [
      | inl first ↦ rw (differs, first, kinds_differ j kind k differs first) (sym (append-nil v))
      | inr other ↦ rw (differs, other) (emplaced kind k entry rest)
    ]
  ]
    where
      push_in :
          (b : Bool) (w : Subscribers H)
          → (if b then w ++ entry ∷ [] else subscribers k rest)
            ≡ (if b then w else subscribers k rest) ++ (if b then entry ∷ [] else [])
      push_in true w = refl
      push_in false w = sym (append-nil (subscribers k rest))

  only_empty : (kind k : EventKind) → subscribers {H = H} k ((kind, []) ∷ []) ≡ subscribers k []
  unfolding subscribers
  only_empty kind k = if_keeps (λ (w : Subscribers H). w ≡ []) (same_kind kind k) [] [] refl refl

  behind :
      (k j : EventKind) (v : Subscribers H) (xs ys : List (EventKind × Subscribers H))
      → subscribers k xs ≡ subscribers k ys
      → subscribers k ((j, v) ∷ xs) ≡ subscribers k ((j, v) ∷ ys)
  unfolding subscribers
  behind k j v xs ys h = ap (λ w. if same_kind j k then v else w) h

  erased :
      (kind k : EventKind) (n : ℕ) (h : H) (subs : List (EventKind × Subscribers H))
      → AllBelow n subs
      → subscribers k (erase_token n (emplace kind (n, h) subs)) ≡ subscribers k subs
  unfolding emplace erase_token
  erased kind k n h [] b = rw (has_new n h [], without_new n h [] tt) (only_empty kind k)
  erased kind k n h ((j, v) ∷ rest) (b, bs) = elim (Bool-cases (same_kind j kind)) [
    | inl same ↦ rw (same, has_new n h v, without_new n h v b)
    | inr differs ↦ rw (differs, lacks_new n v b) (behind k j v _ rest (erased kind k n h rest bs))
  ]

  emplace-AllBelow :
      (n : ℕ) (kind : EventKind) (h : H) (subs : List (EventKind × Subscribers H))
      → AllBelow n subs
      → AllBelow (n + 1) (emplace kind (n, h) subs)
  unfolding emplace
  emplace-AllBelow n kind h [] b = ((omega arith, tt), tt)
  emplace-AllBelow n kind h ((j, v) ∷ rest) (b, bs) =
      if_keeps (AllBelow (n + 1)) (same_kind j kind) _ _
        (All-append _ v ((n, h) ∷ []) (wider n v b) (omega arith, tt), wider_all n rest bs)
        (wider n v b, emplace-AllBelow n kind h rest bs)

  -- On a bus whose next token is fresh, a new subscription keeps the next token fresh, adds its handler
  -- behind those called for events of its kind and to no other kind, and unsubscribing its token
  -- restores what was called for every event.
  pub subscribe_lem :
      (bus : EventBus H) (kind : EventKind) (h : H) (e : Event)
      → IsFresh bus
      → IsFresh (subscribe bus kind h).0
        × (publish (subscribe bus kind h).0 e
            ≡ publish bus e ++ (if same_kind kind e.kind then h ∷ [] else []))
        × (publish (unsubscribe (subscribe bus kind h).0 (subscribe bus kind h).1) e
            ≡ publish bus e)
  unfolding subscribe unsubscribe publish
  subscribe_lem bus kind h e fresh = (
    emplace-AllBelow bus.next_token kind h bus.subs fresh,
    ap (map (λ entry. entry.1)) (emplaced kind e.kind (bus.next_token, h) bus.subs)
        ∙ map-concat (subscribers e.kind bus.subs) (same_kind kind e.kind),
    ap (map (λ entry. entry.1)) (erased kind e.kind bus.next_token h bus.subs fresh),
  )
    where
      map-concat :
          (v : Subscribers H) (b : Bool)
          → map (λ entry. entry.1) (v ++ (if b then (bus.next_token, h) ∷ [] else []))
            ≡ map (λ entry. entry.1) v ++ (if b then h ∷ [] else [])
      map-concat [] true = refl
      map-concat [] false = refl
      map-concat (x ∷ v) b = ap (λ w. x.1 ∷ w) (map-concat v b)
