-- ===== src/Ibc/Router/Laws.antt =====
-- The router as a set of bindings.
use interchain_communication.Prelude.{
  ◌≡◌, refl, true, false, ◌||◌, not, ◌&&◌, List, [], ◌∷◌, ◌++◌, Bytes, bytes_eq_iff, bytes_eq_refl,
  if_keeps, Bool-cases, inl, inr, ◌∙◌, ap, arith,
}
use interchain_communication.Util.Error.{is_ok}
use interchain_communication.Ibc.Router.{
  Binding, same_key, is_bound_in, erase_first, IbcRouter, bind, unbind, is_bound,
}

abbrev as_key : Bytes → Bytes → Binding
as_key port chan = record { p = port; c = chan }

-- No key twice.
unfoldable pub Distinct : List Binding → Type 0
Distinct [] = Unit
Distinct (k ∷ ks) = (is_bound_in k ks ≡ false) × Distinct ks

same_key_sound : (k key : Binding) → same_key k key ≡ true → k ≡ key
unfolding same_key
same_key_sound k key h = ground (arith, bytes_eq_iff k.p key.p, bytes_eq_iff k.c key.c)

same_key_refl : (k : Binding) → same_key k k ≡ true
unfolding same_key
same_key_refl k = rw (bytes_eq_refl k.p, bytes_eq_refl k.c)

is_bound_in-append :
    (key k : Binding) (ks : List Binding)
    → is_bound_in key (ks ++ k ∷ []) ≡ (is_bound_in key ks || same_key k key)
unfolding is_bound_in
is_bound_in-append key k [] = ground arith
is_bound_in-append key k (x ∷ ks) = ground (arith, is_bound_in-append key k ks)

facts : (x k key : Binding) → same_key x k ≡ true → same_key x key ≡ same_key k key
facts x k key h = ap (λ b. same_key b key) (same_key_sound x k h)

same_key-sym : (x k : Binding) → same_key x k ≡ same_key k x
same_key-sym x k = ground (arith, facts x k x, facts k x k, same_key_refl x, same_key_refl k)

same_bound :
    (x k : Binding) (ks : List Binding) → same_key x k ≡ true → is_bound_in x ks ≡ is_bound_in k ks
same_bound x k ks h = ap (λ b. is_bound_in b ks) (same_key_sound x k h)

append-Distinct :
    (ks : List Binding) (k : Binding)
    → is_bound_in k ks ≡ false
    → Distinct ks
    → Distinct (ks ++ k ∷ [])
unfolding Distinct is_bound_in
append-Distinct [] k new d = (refl, tt)
append-Distinct (x ∷ ks) k new (fresh, d) = (
  is_bound_in-append x k ks ∙ ground (arith, same_key-sym x k, new, fresh),
  append-Distinct ks k (ground (arith, new)) d,
)

is_bound_in-erase_first :
    (key k : Binding) (ks : List Binding)
    → Distinct ks
    → is_bound_in k (erase_first key ks) ≡ (is_bound_in k ks && not (same_key key k))
unfolding is_bound_in erase_first Distinct
is_bound_in-erase_first key k [] d = refl
is_bound_in-erase_first key k (x ∷ ks) (fresh, d) = ground (
  arith,
  facts x key k,
  facts x k key,
  same_key-sym x k,
  same_key-sym key k,
  same_bound x k ks,
  fresh,
  is_bound_in-erase_first key k ks d,
)

erase_first-Distinct :
    (key : Binding) (ks : List Binding) → Distinct ks → Distinct (erase_first key ks)
unfolding erase_first Distinct
erase_first-Distinct key [] d = tt
erase_first-Distinct key (x ∷ ks) (fresh, d) =
    if_keeps Distinct (same_key x key) ks (x ∷ erase_first key ks) d
      (is_bound_in-erase_first key x ks d ∙ ground (arith, fresh), erase_first-Distinct key ks d)

-- `bind` succeeds exactly when the binding is new. It keeps the bindings distinct, and then exactly
-- those are bound that were, and this one.
bind_lem :
    (r : IbcRouter) (port chan p c : Bytes)
    → Distinct r
    → (is_ok (bind r port chan).1 ≡ not (is_bound r port chan))
      × Distinct (bind r port chan).0
      × (is_bound (bind r port chan).0 p c
          ≡ (is_bound r p c || same_key (as_key port chan) (as_key p c)))
unfolding bind is_bound
bind_lem r port chan p c d = elim (Bool-cases (is_bound_in (as_key port chan) r)) [
  | inl old ↦ rw old (refl, d, ground (arith, same_bound (as_key port chan) (as_key p c) r, old))
  | inr new ↦ rw new (
    refl,
    append-Distinct r (as_key port chan) new d,
    is_bound_in-append (as_key p c) (as_key port chan) r,
  )
]

-- On distinct bindings, `unbind` succeeds exactly when the binding is there. It keeps the bindings
-- distinct, and then exactly those are bound that were, without this one.
pub unbind_lem :
    (r : IbcRouter) (port chan p c : Bytes)
    → Distinct r
    → (is_ok (unbind r port chan).1 ≡ is_bound r port chan)
      × Distinct (unbind r port chan).0
      × (is_bound (unbind r port chan).0 p c
          ≡ (is_bound r p c && not (same_key (as_key port chan) (as_key p c))))
unfolding unbind is_bound
unbind_lem r port chan p c d = elim (Bool-cases (is_bound_in (as_key port chan) r)) [
  | inl old ↦ rw old (
    refl,
    erase_first-Distinct (as_key port chan) r d,
    is_bound_in-erase_first (as_key port chan) (as_key p c) r d,
  )
  | inr none_such ↦
      rw none_such
        (refl, d, ground (arith, same_bound (as_key port chan) (as_key p c) r, none_such))
]
