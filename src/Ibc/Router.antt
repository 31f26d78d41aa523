-- ===== src/Ibc/Router.antt =====
-- src/ibc/IBCRouter.h and IBCRouter.cpp: the bindings of ports to channels, in the order of `bind`.
-- Each method is one step under the router's mutex.
pub mod Laws
use interchain_communication.Prelude.{
  ℕ, Bool, true, false, ◌&&◌, List, [], ◌∷◌, ◌++◌, Bytes, bytes_eq, if◌then◌else◌,
}
use interchain_communication.Util.Error.{Status, status, ErrorCode}

-- `Key`.
pub record Binding : Type 0 where
  pub p : Bytes
  pub c : Bytes

unfoldable pub same_key : Binding → Binding → Bool
same_key k key = bytes_eq k.p key.p && bytes_eq k.c key.c

-- `find_if` from the front: whether it finds the key.
unfoldable pub is_bound_in : Binding → List Binding → Bool
unfolding same_key
is_bound_in key [] = false
is_bound_in key (k ∷ ks) = if same_key k key then true else is_bound_in key ks

-- `erase` of what `find_if` finds: the first only.
unfoldable pub erase_first : Binding → List Binding → List Binding
unfolding same_key
erase_first key [] = []
erase_first key (k ∷ ks) = if same_key k key then ks else k ∷ erase_first key ks

abbrev pub IbcRouter : Type 0
IbcRouter = List Binding

unfoldable pub bind : IbcRouter → Bytes → Bytes → IbcRouter × Status
bind r port chan =
    let key : Binding = record { p = port; c = chan } in
    if is_bound_in key r
    then (r, status ErrorCode.invalid_state "Binding already exists")
    else (r ++ key ∷ [], status ErrorCode.ok "Bound successfully")

unfoldable pub unbind : IbcRouter → Bytes → Bytes → IbcRouter × Status
unbind r port chan =
    let key : Binding = record { p = port; c = chan } in
    if is_bound_in key r
    then (erase_first key r, status ErrorCode.ok "Unbound successfully")
    else (r, status ErrorCode.not_found "Binding not found")

unfoldable pub is_bound : IbcRouter → Bytes → Bytes → Bool
is_bound r port chan = is_bound_in (record { p = port; c = chan }) r
