-- ===== src/Onion/Tests.antt =====
-- The padding of a layer (alterchat-core/src/onion.rs) on a small input.
use alter_chat.Base.{
  ◌+◌, ◌≤◌, ◌<◌, String, Option, none, some, [], ◌≡◌, refl, ap, arith, length, some_inj, sym,
}
use alter_chat.Base.Bytes.{Bytes}
use alter_chat.Base.Result.{ok}
use alter_chat.Crypto.{toy}
use alter_chat.Onion.{OnionPacket, OnionLayer, OnionCodec, OnionIsLawful, target_size, padded_bytes}
use alter_chat.Onion.Size.{padded_bytes-size}

-- Only layers without a next hop, a packet or a payload are serialized, as their padding.
bare_only : Option String → Option OnionPacket → Option Bytes → Bytes → Option Bytes
bare_only none none none padding = some padding
bare_only hop packet payload padding = none

abbrev codec : OnionCodec
codec = record {
  serialize = λ l. bare_only l.next_hop l.inner_packet l.payload l.padding;
  deserialize =
      λ b. some (record { next_hop = none; inner_packet = none; payload = none; padding = b });
}

bare_back :
    (hop : Option String) (packet : Option OnionPacket) (payload : Option Bytes) (padding : Bytes)
    {b : Bytes}
    → bare_only hop packet payload padding ≡ some b
    → codec.deserialize b
      ≡ some
          (record { next_hop = hop; inner_packet = packet; payload = payload; padding = padding })
unfolding bare_only
bare_back none none none padding h = λ i.
    some (record {
      next_hop = none;
      inner_packet = none;
      payload = none;
      padding = sym (some_inj h) i;
    })
bare_back none none (some p) padding h = ground arith
bare_back none (some q) p padding h = ground arith
bare_back (some n) q p padding h = ground arith

bare_size :
    (hop : Option String) (packet : Option OnionPacket) (payload : Option Bytes) {b : Bytes}
    (padding : Bytes)
    → bare_only hop packet payload [] ≡ some b
    → (c : Bytes) × (bare_only hop packet payload padding ≡ some c)
      × (length c ≡ length b + length padding)
unfolding bare_only
bare_size none none none {b} padding h =
    let empty : [] ≡ b = some_inj h in (padding, refl, ground (arith, ap length empty))
bare_size none none (some p) {b} padding h = ground arith
bare_size none (some q) p {b} padding h = ground arith
bare_size (some n) q p {b} padding h = ground arith

codec-IsLawful : OnionIsLawful codec
codec-IsLawful = record {
  read_back = λ l h. bare_back l.next_hop l.inner_packet l.payload l.padding h;
  size = λ l padding h. bare_size l.next_hop l.inner_packet l.payload padding h;
}

abbrev layer : OnionLayer
layer = record { next_hop = none; inner_packet = none; payload = none; padding = [] }

padded_bytes-size_example :
    (0 + 8 ≤ target_size
      → (b : Bytes) × (padded_bytes toy codec layer ≡ some (ok b)) × (length b + 8 ≡ target_size))
    × (target_size ≤ 0
        → (b : Bytes) × (padded_bytes toy codec layer ≡ some (ok b)) × (length b ≡ 0))
    × (0 < target_size → target_size < 0 + 8 → padded_bytes toy codec layer ≡ none)
unfolding bare_only
padded_bytes-size_example =
    padded_bytes-size toy codec codec-IsLawful layer {initial = []} refl refl
