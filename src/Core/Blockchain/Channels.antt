-- ===== src/Core/Blockchain/Channels.antt =====
-- The channels of a chain while none is closed (src/core/Blockchain.cpp, src/ibc/IBCChannel.cpp):
-- what their methods return, and what the chain stores under a channel's key.
use interchain_communication.Prelude.{
  ◌<◌, ◌≡◌, ◌≢◌, refl, ap, false, Option, none, some, Bytes, bytes_eq, lookup, lookup-insert,
  if◌then◌else◌, u64_mod, incr64, arith,
}
use interchain_communication.Ibc.Channel.{IbcChannel, opened, closed, new_channel, open_channel}
use interchain_communication.Core.Blockchain.{
  Blockchain, make_channel_key, store, get_or_create_channel, open_stored, open_failed,
}

-- A channel that is not closed, with a counter of 64 bits.
abbrev pub IsUsable : IbcChannel → Type 0
IsUsable c = (c.state ≢ closed) × (c.next_seq < u64_mod)

pub record IsSound (bc : Blockchain) : Type 0 where
  pub own :
      (key : Bytes) (c : IbcChannel) → lookup key bc.channels ≡ some c → c.chain_id ≡ bc.chain_id
  pub usable : (key : Bytes) (c : IbcChannel) → lookup key bc.channels ≡ some c → IsUsable c

abbrev pub or_new : IbcChannel → Option IbcChannel → IbcChannel
or_new c none = c
or_new c (some d) = d

-- The channel that a method works on: the stored one, or a new one.
abbrev pub channel_at : Blockchain → Bytes → Bytes → IbcChannel
channel_at bc port chan =
    or_new (new_channel bc.chain_id port chan) (lookup (make_channel_key port chan) bc.channels)

or_new-IsUsable :
    (c : IbcChannel) (o : Option IbcChannel)
    → IsUsable c
    → ((d : IbcChannel) → o ≡ some d → IsUsable d)
    → IsUsable (or_new c o)
or_new-IsUsable c none u h = u
or_new-IsUsable c (some d) u h = h d refl

pub channel_at-IsUsable :
    (bc : Blockchain) (port chan : Bytes) → IsSound bc → IsUsable (channel_at bc port chan)
unfolding new_channel
channel_at-IsUsable bc port chan v =
    or_new-IsUsable _ _ (λ q. cc, omega arith) (v.usable (make_channel_key port chan))

or_new-own :
    (id : Bytes) (c : IbcChannel) (o : Option IbcChannel)
    → c.chain_id ≡ id
    → ((d : IbcChannel) → o ≡ some d → d.chain_id ≡ id)
    → (or_new c o).chain_id ≡ id
or_new-own id c none u h = u
or_new-own id c (some d) u h = h d refl

pub channel_at-own :
    (bc : Blockchain) (port chan : Bytes)
    → IsSound bc
    → (channel_at bc port chan).chain_id ≡ bc.chain_id
unfolding new_channel
channel_at-own bc port chan v = or_new-own bc.chain_id _ _ refl (v.own (make_channel_key port chan))

-- The channel once it is opened.
abbrev pub opened_at : Blockchain → Bytes → Bytes → IbcChannel
opened_at bc port chan = record (channel_at bc port chan) { state = opened }

open_usable :
    (c : IbcChannel)
    → IsUsable c
    → ((open_channel c).0 ≡ record c { state = opened }) × (open_failed (open_channel c).1 ≡ false)
unfolding open_channel
open_usable c u = ground arith

-- `bc'` is `bc` with the channel `c` under `key`, and nothing else changed.
pub record Updated (bc : Blockchain) (key : Bytes) (c : IbcChannel) (bc' : Blockchain)
    : Type 0 where
  pub kept : bc' ≡ record bc { channels = bc'.channels }
  pub at :
      (j : Bytes)
      → lookup j bc'.channels ≡ (if bytes_eq key j then some c else lookup j bc.channels)

store-Updated :
    (bc : Blockchain) (port chan : Bytes) (c : IbcChannel)
    → Updated bc (make_channel_key port chan) c (store bc port chan c)
store-Updated bc port chan c = record { kept = refl; at = λ j. lookup-insert _ j c bc.channels }

pub restore-Updated :
    {bc bc' : Blockchain} (port chan : Bytes) {c : IbcChannel} (d : IbcChannel)
    → Updated bc (make_channel_key port chan) c bc'
    → Updated bc (make_channel_key port chan) d (store bc' port chan d)
restore-Updated {bc} {bc'} port chan d u = record {
  kept = ap (λ (x : Blockchain). store x port chan d) u.kept;
  at = λ j. ground (arith, lookup-insert (make_channel_key port chan) j d bc'.channels, u.at j);
}

chain_id-Updated :
    {bc bc' : Blockchain} (key : Bytes) {c : IbcChannel}
    → Updated bc key c bc'
    → bc'.chain_id ≡ bc.chain_id
chain_id-Updated key u = ap (λ (x : Blockchain). x.chain_id) u.kept

pub Updated-IsSound :
    {bc bc' : Blockchain} (key : Bytes) {c : IbcChannel}
    → IsSound bc
    → IsUsable c
    → c.chain_id ≡ bc.chain_id
    → Updated bc key c bc'
    → IsSound bc'
Updated-IsSound key v h o u = record {
  own = λ j d e. ground (arith, v.own j d, u.at j, chain_id-Updated key u);
  usable = λ j d e. ground (arith, v.usable j d, u.at j);
}

open_stored_lem :
    (bc : Blockchain) (port chan : Bytes) (o : Option IbcChannel)
    → lookup (make_channel_key port chan) bc.channels ≡ o
    → IsUsable (or_new (new_channel bc.chain_id port chan) o)
    → let c : IbcChannel = record (or_new (new_channel bc.chain_id port chan) o) {
      state = opened;
    } in
      Updated bc (make_channel_key port chan) c (open_stored bc port chan).0
      × ((open_stored bc port chan).1 ≡ c)
      × (open_failed (open_stored bc port chan).2 ≡ false)
unfolding open_stored get_or_create_channel
open_stored_lem bc port chan none e h =
    let (opens, fine) = open_usable (new_channel bc.chain_id port chan) h in
    rw (e, get_or_create_channel, opens)
      (
        restore-Updated port chan _
            (store-Updated bc port chan (new_channel bc.chain_id port chan)),
        refl,
        fine,
      )
open_stored_lem bc port chan (some c) e h =
    let (opens, fine) = open_usable c h in
    rw (e, get_or_create_channel, opens) (store-Updated bc port chan _, refl, fine)

-- The channel of a sound chain opens.
pub opens_at :
    (bc : Blockchain) (port chan : Bytes)
    → IsSound bc
    → Updated bc (make_channel_key port chan) (opened_at bc port chan) (open_stored bc port chan).0
      × ((open_stored bc port chan).1 ≡ opened_at bc port chan)
      × (open_failed (open_stored bc port chan).2 ≡ false)
opens_at bc port chan v = open_stored_lem bc port chan _ refl (channel_at-IsUsable bc port chan v)

-- The channel behind a packet that it sent or received.
abbrev pub bumped_at : Blockchain → Bytes → Bytes → IbcChannel
bumped_at bc port chan = record (channel_at bc port chan) {
  state = opened;
  next_seq = incr64 (channel_at bc port chan).next_seq;
}
