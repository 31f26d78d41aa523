-- ===== src/Sim/Controller/Addresses.antt =====
-- The addresses that `init` gives to nodes (src/sim/SimulationController.cpp).
use interchain_communication.Prelude.{
  ℕ, ◌≡◌, ◌≢◌, refl, sym, ap, ◌∙◌, [], ◌∷◌, ◌++◌, Bytes, codes, Lacks, All, All-append, drop, arith,
}
use interchain_communication.Util.Decimal.{to_string}
use interchain_communication.Util.Decimal.RoundTrip.{IsNumeric, to_string-IsNumeric, to_string-inj}
use interchain_communication.Sim.Controller.{node_address}

tail : Bytes → Bytes
tail [] = []
tail (c ∷ s) = s

first_of : Bytes → ℕ
first_of [] = 0
first_of (c ∷ s) = c

not_inside : (c : ℕ) (x b y : Bytes) → Lacks c x → x ≢ b ++ (c ∷ y)
unfolding tail first_of
not_inside c [] [] y h e = cc
not_inside c [] (d ∷ b) y h e = cc
not_inside c (d ∷ x) [] y (n, h) e = n (ap first_of e)
not_inside c (d ∷ x) (k ∷ b) y (n, h) e = not_inside c x b y h (ap tail e)

-- A text is cut at its last separator in one way.
cut_last :
    (c : ℕ) (a b x y : Bytes)
    → Lacks c x
    → Lacks c y
    → a ++ (c ∷ x) ≡ b ++ (c ∷ y)
    → (a ≡ b) × (x ≡ y)
unfolding tail first_of
cut_last c [] [] x y hx hy e = (refl, ap tail e)
cut_last c [] (d ∷ b) x y hx hy e = absurd (not_inside c x b y hx (ap tail e))
cut_last c (d ∷ a) [] x y hx hy e = absurd (not_inside c y a x hy (sym (ap tail e)))
cut_last c (d ∷ a) (k ∷ b) x y hx hy e =
    let (same, rest) = cut_last c a b x y hx hy (ap tail e) in
    (ap (λ s. d ∷ s) same ∙ ap (λ j. j ∷ b) (ap first_of e), rest)

numeric-Lacks : (s : Bytes) → All IsNumeric s → Lacks b':' s
numeric-Lacks [] h = tt
numeric-Lacks (c ∷ s) ((lo, hi), h) = (λ e. absurd (omega (arith, e, hi)), numeric-Lacks s h)

node_id-Lacks : (i : ℕ) → Lacks b':' (codes "node-" ++ to_string i)
node_id-Lacks i =
    All-append (λ c. c ≢ b':') (codes "node-") (to_string i) (omega arith)
      (numeric-Lacks _ (to_string-IsNumeric i))

-- Two nodes with one address are one node of one chain.
pub node_address-inj :
    (id id' : Bytes) (i j : ℕ) → node_address id i ≡ node_address id' j → (id ≡ id') × (i ≡ j)
unfolding node_address
node_address-inj id id' i j e =
    let (ids, names) = cut_last b':' id id' _ _ (node_id-Lacks i) (node_id-Lacks j) e in
    (ids, to_string-inj i j (ap (drop 5) names))
