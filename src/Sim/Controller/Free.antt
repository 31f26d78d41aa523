-- ===== src/Sim/Controller/Free.antt =====
-- The addresses that are free at the transport while `init` registers nodes
-- (src/sim/SimulationController.cpp).
use interchain_communication.Prelude.{
  ℕ, suc, ◌≤◌, ◌≡◌, ◌≢◌, sym, ◌∙◌, false, Bytes, bytes_eq_iff, insert, arith,
}
use interchain_communication.Net.Transport.{Transport, has_endpoint}
use interchain_communication.Sim.Controller.{node_address}
use interchain_communication.Sim.Controller.Wiring.{registered}
use interchain_communication.Sim.Controller.Addresses.{node_address-inj}

-- The addresses of a chain's nodes from the `k`-th on are free.
unfoldable pub IsFree : Transport ℕ → Bytes → ℕ → Type 0
IsFree t id k = (i : ℕ) → k ≤ i → has_endpoint t (node_address id i) ≡ false

-- The transport with one more endpoint.
abbrev pub with_endpoint : Transport ℕ → Bytes → ℕ → Transport ℕ
with_endpoint t address deliver = record t { endpoints = insert address deliver t.endpoints }

still_free :
    (t : Transport ℕ) (address other : Bytes) (deliver : ℕ)
    → address ≢ other
    → has_endpoint t other ≡ false
    → has_endpoint (with_endpoint t address deliver) other ≡ false
still_free t address other deliver n h =
    registered t address other deliver ∙ ground (arith, bytes_eq_iff address other, n, h)

pub IsFree-behind :
    (t : Transport ℕ) (id : Bytes) (k deliver : ℕ)
    → IsFree t id k
    → IsFree (with_endpoint t (node_address id k) deliver) id (suc k)
unfolding IsFree
IsFree-behind t id k deliver free i le =
    still_free t (node_address id k) (node_address id i) deliver
      (λ e. absurd (omega (arith, le, (node_address-inj id id k i e).1)))
      (free i (omega (arith, le)))

pub IsFree-other :
    (t : Transport ℕ) (id id' : Bytes) (k deliver : ℕ)
    → id' ≢ id
    → IsFree t id' 0
    → IsFree (with_endpoint t (node_address id k) deliver) id' 0
unfolding IsFree
IsFree-other t id id' k deliver n free i le =
    still_free t (node_address id k) (node_address id' i) deliver
      (λ e. n (sym (node_address-inj id id' k i e).0)) (free i le)

-- What a step of `init` over a chain keeps of the transport: the other chains' addresses stay free.
unfoldable pub SparesOthers : Bytes → Transport ℕ → Transport ℕ → Type 0
SparesOthers id t t' = (id' : Bytes) → id' ≢ id → IsFree t id' 0 → IsFree t' id' 0
