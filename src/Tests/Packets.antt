-- ===== src/Tests/Packets.antt =====
-- Packets, channels and the router at concrete inputs.
use interchain_communication.Prelude.{
  inl, inr, List, ℕ, ◌≡◌, refl, false, ◌&&◌, not, [], ◌∷◌, ◌++◌, Bytes, bytes_eq, codes, map,
  length, suc, arith,
}
use interchain_communication.Util.Error.{returns, is_ok}
use interchain_communication.Ibc.Types.{
  IbcPacket, IsPacket, data_packet, of_int, to_int, serialize, deserialize,
}
use interchain_communication.Ibc.Types.RoundTrip.{deserialize-serialize}
use interchain_communication.Ibc.Channel.{
  IbcChannel, opened, open_channel, close_channel, accept_packet, make_packet,
}
use interchain_communication.Ibc.Channel.Lifecycle.{
  opens, accepts, here, next, RefusesAll, close_is_final,
}
use interchain_communication.Ibc.Channel.Order.{
  accept_all, count_from, accept_all_in_order, Carried, nothing, first, again, accept_all-Carried,
  make_all, sent-received,
}
use interchain_communication.Ibc.Router.{
  IbcRouter, Binding, unbind, is_bound, same_key, is_bound_in,
}
use interchain_communication.Ibc.Router.Laws.{Distinct, unbind_lem}

abbrev sample : ℕ → IbcPacket
sample n = record {
  type = data_packet;
  src_chain = codes "chain|A";
  dst_chain = codes "chain\\B";
  src_port = codes "port-A";
  src_channel = codes "channel-A";
  dst_port = codes "port-B";
  dst_channel = codes "channel-B";
  sequence = n;
  payload = codes "a|b\\c";
}

sample-IsPacket : IsPacket (sample 7)
unfolding of_int to_int
sample-IsPacket = record {
  type_canonical = refl;
  type_fits = omega arith;
  sequence_fits = omega arith;
}

deserialize-serialize_example : deserialize (serialize (sample 7)) ≡ returns (sample 7)
deserialize-serialize_example = deserialize-serialize (sample 7) sample-IsPacket

abbrev channel : ℕ → IbcChannel
channel n = record {
  chain_id = codes "chain|A";
  port = codes "port-A";
  chan = codes "channel-A";
  state = opened;
  next_seq = n;
}

close_is_final_example :
    ((accept_packet (open_channel (close_channel (channel 3)).0).0 (sample 3)).0
      ≡ (close_channel (channel 3)).0)
    × RefusesAll (accept_packet (open_channel (close_channel (channel 3)).0).0 (sample 3)).0
close_is_final_example = close_is_final (channel 3) (next (next here opens) (accepts (sample 3)))

accept_all_in_order_example :
    let r = accept_all (channel 3) (sample 3 ∷ sample 3 ∷ sample 9 ∷ sample 4 ∷ []) in
    map (λ (p : IbcPacket). p.sequence) r.1 ++ r.0.next_seq ∷ [] ≡ count_from 3 (suc (length r.1))
accept_all_in_order_example =
    accept_all_in_order (channel 3) (sample 3 ∷ sample 3 ∷ sample 9 ∷ sample 4 ∷ []) refl

-- A copy of the first packet arrives behind the second one.
accept_all-Carried_example :
    (accept_all (channel 3) (sample 3 ∷ sample 3 ∷ sample 4 ∷ sample 3 ∷ [])).1
    ≡ sample 3 ∷ sample 4 ∷ []
unfolding count_from
accept_all-Carried_example =
    accept_all-Carried (channel 3) (sample 3 ∷ sample 4 ∷ [])
      (sample 3 ∷ sample 3 ∷ sample 4 ∷ sample 3 ∷ []) refl (omega arith) refl
      (first (sample 3) (
        again (sample 3) (inl refl) (first (sample 4) (again (sample 3) (inr (inl refl)) nothing))))

abbrev sent : ℕ → Bytes → IbcPacket
sent n body = record {
  type = data_packet;
  src_chain = (channel 3).chain_id;
  dst_chain = codes "chain-B";
  src_port = (channel 3).port;
  src_channel = (channel 3).chan;
  dst_port = codes "port-B";
  dst_channel = codes "channel-B";
  sequence = n;
  payload = body;
}

abbrev stream : List IbcPacket
stream = sent 3 (codes "x") ∷ sent 4 (codes "y") ∷ sent 3 (codes "x") ∷ []

abbrev bodies : List Bytes
bodies = codes "x" ∷ codes "y" ∷ []

stream-Carried :
    Carried []
      (make_all (channel 3) (codes "chain-B") (codes "port-B") (codes "channel-B") bodies).1
      stream
unfolding make_all make_packet
stream-Carried =
    first (sent 3 (codes "x"))
      (first (sent 4 (codes "y")) (again (sent 3 (codes "x")) (inr (inl refl)) nothing))

sent-received_example :
    ((accept_all (channel 3) stream).1
      ≡ (make_all (channel 3) (codes "chain-B") (codes "port-B") (codes "channel-B") bodies).1)
    × (map (λ (p : IbcPacket). p.payload) (accept_all (channel 3) stream).1 ≡ bodies)
sent-received_example =
    sent-received (channel 3) (channel 3) (codes "chain-B") (codes "port-B") (codes "channel-B")
      bodies stream refl refl refl (omega arith) stream-Carried

abbrev key : Bytes → Bytes → Binding
key port chan = record { p = port; c = chan }

abbrev router : IbcRouter
router = key (codes "p") (codes "c") ∷ key (codes "p") (codes "d") ∷ []

router-Distinct : Distinct router
unfolding Distinct is_bound_in bytes_eq
router-Distinct = (refl, (refl, tt))

unbind_lem_example :
    (is_ok (unbind router (codes "p") (codes "c")).1 ≡ is_bound router (codes "p") (codes "c"))
    × Distinct (unbind router (codes "p") (codes "c")).0
    × (is_bound (unbind router (codes "p") (codes "c")).0 (codes "p") (codes "d") ≡ (
        is_bound router (codes "p") (codes "d")
        && not (same_key (key (codes "p") (codes "c")) (key (codes "p") (codes "d")))))
unbind_lem_example =
    unbind_lem router (codes "p") (codes "c") (codes "p") (codes "d") router-Distinct

-- Two destinations on one channel: the second chain refuses what is its first packet.
shares_the_counter :
    is_ok
      (accept_packet
        (channel 1)
        (elim (make_all
          (channel 1)
          (codes "B")
          (codes "port-A")
          (codes "channel-A")
          (codes "x" ∷ codes "y" ∷ [])).1 [ _ ∷ p ∷ _ ↦ p | _ ↦ sample 1 ])).1
    ≡ false
unfolding make_all make_packet accept_packet
shares_the_counter = refl
