-- ===== src/Ibc/Channel/Order.antt =====
-- The order in which a channel accepts packets, and what becomes of copies.
use interchain_communication.Prelude.{
  ◌+◌, ◌⊎◌, subst, All, ℕ, zero, suc, ◌<◌, ◌≡◌, ◌≢◌, refl, sym, ap, ◌∙◌, inl, inr, true, false,
  List, [], ◌∷◌, ◌++◌, map, some, none, Bool, Bytes, arith, length, ◌==◌, ==_iff, Bool-cases,
  if◌then◌else◌, u64_mod, incr64,
}
use interchain_communication.Util.Error.{is_ok}
use interchain_communication.Ibc.Types.{IbcPacket}
use interchain_communication.Ibc.Channel.{IbcChannel, opened, accept_packet, make_packet}

-- The packets of a stream that the channel accepts, and the channel behind the stream.
unfoldable pub accept_all : IbcChannel → List IbcPacket → IbcChannel × List IbcPacket
accept_all c [] = (c, [])
accept_all c (p ∷ ps) =
    let (d, s) = accept_packet c p in
    let (e, accepted) = accept_all d ps in (e, if is_ok s then p ∷ accepted else accepted)

-- `n` sequence numbers from `first` on, as the counter passes through them.
unfoldable pub count_from : ℕ → ℕ → List ℕ
count_from first zero = []
count_from first (suc n) = first ∷ count_from (incr64 first) n

abbrev sequences : List IbcPacket → List ℕ
sequences = map (λ p. p.sequence)

-- What `accept_packet` does to an open channel.
abbrev bumped : IbcChannel → IbcChannel
bumped c = record c { next_seq = incr64 c.next_seq }

accept_matching :
    (c : IbcChannel) (p : IbcPacket)
    → c.state ≡ opened
    → p.sequence ≡ c.next_seq
    → ((accept_packet c p).0 ≡ bumped c) × (is_ok (accept_packet c p).1 ≡ true)
unfolding accept_packet
accept_matching c p o h = ground arith

accept_other :
    (c : IbcChannel) (p : IbcPacket)
    → p.sequence ≢ c.next_seq
    → ((accept_packet c p).0 ≡ c) × (is_ok (accept_packet c p).1 ≡ false)
unfolding accept_packet
accept_other c p h = ground (arith, ==_iff p.sequence c.next_seq)

accept_all_matching :
    (c : IbcChannel) (p : IbcPacket) (ps : List IbcPacket)
    → c.state ≡ opened
    → p.sequence ≡ c.next_seq
    → accept_all c (p ∷ ps) ≡ ((accept_all (bumped c) ps).0, p ∷ (accept_all (bumped c) ps).1)
unfolding accept_all
accept_all_matching c p ps o h = let (e, k) = accept_matching c p o h in rw (e, k)

accept_all_other :
    (c : IbcChannel) (p : IbcPacket) (ps : List IbcPacket)
    → p.sequence ≢ c.next_seq
    → accept_all c (p ∷ ps) ≡ accept_all c ps
unfolding accept_all
accept_all_other c p ps h = let (e, k) = accept_other c p h in rw (e, k)

count_from-suc : (first n : ℕ) → count_from first (suc n) ≡ first ∷ count_from (incr64 first) n
unfolding count_from
count_from-suc first n = refl

count_head :
    (x : ℕ) (xs : List ℕ) (first n : ℕ)
    → x ∷ xs ≡ count_from first (suc n)
    → (x ≡ first) × (xs ≡ count_from (incr64 first) n)
unfolding count_from
count_head x xs first n e = ground arith

incr64_ne : (n : ℕ) → n < u64_mod → n ≢ incr64 n
incr64_ne n h = omega arith

true≢false : {b : Bool} → b ≡ true → ¬ (b ≡ false)
true≢false p q = cc

-- Whatever stream arrives, what an open channel accepts carries consecutive sequence numbers from
-- its counter on, and the counter moves once for each packet accepted.
pub accept_all_in_order :
    (c : IbcChannel) (ps : List IbcPacket)
    → c.state ≡ opened
    → sequences (accept_all c ps).1 ++ (accept_all c ps).0.next_seq ∷ []
      ≡ count_from c.next_seq (suc (length (accept_all c ps).1))
accept_all_in_order c [] o = unfold accept_all count_from in refl
accept_all_in_order c (p ∷ ps) o = elim (Bool-cases (p.sequence == c.next_seq)) [
  | inl same ↦
      let e = (==_iff p.sequence c.next_seq).0 same in
      rw (accept_all_matching c p ps o e, e, count_from-suc)
        (ap (◌∷◌ c.next_seq) (accept_all_in_order (bumped c) ps o))
  | inr differs ↦
      rw (accept_all_other c p ps (λ e. true≢false ((==_iff p.sequence c.next_seq).1 e) differs))
        (accept_all_in_order c ps o)
]

-- Among the members.
abbrev pub IsIn : IbcPacket → List IbcPacket → Type 0
IsIn p [] = ⊥
IsIn p (q ∷ qs) = (p ≡ q) ⊎ IsIn p qs

-- What arrives when several carry the same packets, each in sequence: behind the packets `seen`, the
-- ones of `ps` arrive for the first time in their order, and a packet that was seen may arrive again
-- at any time, and any number of times.
pub data Carried : List IbcPacket → List IbcPacket → List IbcPacket → Type 0 where
  nothing : {seen : List IbcPacket} → Carried seen [] []
  first :
      (p : IbcPacket) {seen ps stream : List IbcPacket}
      → Carried (p ∷ seen) ps stream
      → Carried seen (p ∷ ps) (p ∷ stream)
  again :
      (p : IbcPacket) {seen ps stream : List IbcPacket}
      → IsIn p seen
      → Carried seen ps stream
      → Carried seen ps (p ∷ stream)

abbrev AllBelow : ℕ → List IbcPacket → Type 0
AllBelow n = All (λ p. p.sequence < n)

below_later : (n : ℕ) (ps : List IbcPacket) → AllBelow n ps → AllBelow (n + 1) ps
below_later n [] h = tt
below_later n (p ∷ ps) (hp, h) = (omega (arith, hp), below_later n ps h)

below_in :
    (n : ℕ) (p : IbcPacket) (ps : List IbcPacket) → AllBelow n ps → IsIn p ps → p.sequence < n
below_in n p [] h m = absurd m
below_in n p (q ∷ ps) (hq, h) (inl e) = subst (λ (x : IbcPacket). x.sequence < n) (sym e) hq
below_in n p (q ∷ ps) (hq, h) (inr m) = below_in n p ps h m

accept-Carried :
    (c : IbcChannel) {seen ps stream : List IbcPacket}
    → Carried seen ps stream
    → c.state ≡ opened
    → AllBelow c.next_seq seen
    → c.next_seq + length ps < u64_mod
    → sequences ps ≡ count_from c.next_seq (length ps)
    → (accept_all c stream).1 ≡ ps
accept-Carried c nothing o below fits e = unfold accept_all in refl
accept-Carried c (first p {seen} {ps} {stream} rest) o below fits e =
    let (same, others) = count_head p.sequence (sequences ps) c.next_seq (length ps) e in
    let next : incr64 c.next_seq ≡ c.next_seq + 1 = omega (arith, fits) in
    rw (accept_all_matching c p stream o same) (
      ap (◌∷◌ p) (
        accept-Carried (bumped c) rest o
          (subst (λ n. AllBelow n (p ∷ seen)) (sym next)
            (omega (arith, same), below_later c.next_seq seen below))
          (omega (arith, next, fits)) others))
accept-Carried c (again p {seen} {ps} {stream} m rest) o below fits e =
    let old = below_in c.next_seq p seen below m in
    rw (accept_all_other c p stream (λ q. absurd (omega (arith, q, old))))
      (accept-Carried c rest o below fits e)

-- However many copies of each packet arrive, and wherever behind its first arrival they stand between
-- the other packets, a channel accepts each packet once: what it accepts of a stream in which packets
-- in sequence from its counter on arrive for the first time in their order, and else only packets that
-- arrived before, are these packets in their order, if its counter does not wrap meanwhile.
pub accept_all-Carried :
    (c : IbcChannel) (ps stream : List IbcPacket)
    → c.state ≡ opened
    → c.next_seq + length ps < u64_mod
    → sequences ps ≡ count_from c.next_seq (length ps)
    → Carried [] ps stream
    → (accept_all c stream).1 ≡ ps
accept_all-Carried c ps stream o fits e carried = accept-Carried c carried o tt fits e

-- The packets that `make_packet` makes of a list of payloads.
unfoldable pub make_all :
    IbcChannel → Bytes → Bytes → Bytes → List Bytes → IbcChannel × List IbcPacket
make_all c dst_chain dst_port dst_chan [] = (c, [])
make_all c dst_chain dst_port dst_chan (body ∷ bodies) =
    let (d, r) = make_packet c dst_chain dst_port dst_chan body in
    let (e, ps) = make_all d dst_chain dst_port dst_chan bodies in
    elim r.value [ none ↦ (e, ps) | some p ↦ (e, p ∷ ps) ]

abbrev payloads : List IbcPacket → List Bytes
payloads = map (λ p. p.payload)

make_all_lem :
    (c : IbcChannel) (dst_chain dst_port dst_chan : Bytes) (bodies : List Bytes)
    → c.state ≡ opened
    → let ps = (make_all c dst_chain dst_port dst_chan bodies).1 in
      (sequences ps ≡ count_from c.next_seq (length ps))
      × (length ps ≡ length bodies)
      × (payloads ps ≡ bodies)
unfolding make_all make_packet count_from
make_all_lem c dst_chain dst_port dst_chan [] o = (refl, refl, refl)
make_all_lem c dst_chain dst_port dst_chan (body ∷ bodies) o =
    let (counted, long, bodies') = make_all_lem (bumped c) dst_chain dst_port dst_chan bodies o in
    ground (arith, counted, long, bodies')

-- Between two open channels whose counters agree and do not wrap meanwhile, every payload sent is
-- received once and in order: of a stream that carries the packets of the payloads, with any copies
-- behind the first arrivals, the receiver accepts just these packets, and their payloads are those
-- that were sent.
pub sent-received :
    (sender receiver : IbcChannel) (dst_chain dst_port dst_chan : Bytes) (bodies : List Bytes)
    (stream : List IbcPacket)
    → sender.state ≡ opened
    → receiver.state ≡ opened
    → sender.next_seq ≡ receiver.next_seq
    → receiver.next_seq + length bodies < u64_mod
    → Carried [] (make_all sender dst_chain dst_port dst_chan bodies).1 stream
    → ((accept_all receiver stream).1 ≡ (make_all sender dst_chain dst_port dst_chan bodies).1)
      × (map (λ (p : IbcPacket). p.payload) (accept_all receiver stream).1 ≡ bodies)
sent-received sender receiver dst_chain dst_port dst_chan bodies stream os or same fits carried =
    let (counted, long, sent) = make_all_lem sender dst_chain dst_port dst_chan bodies os in
    let whole =
      accept_all-Carried receiver _ stream or (omega (arith, long, fits)) (rw (← same) counted)
        carried in
    (whole, ap payloads whole ∙ sent)
