-- ===== src/Onion.antt =====
-- Onion packets (alterchat-core/src/onion.rs). What each hop draws is an argument; a computation
-- that ends in a panic is `none`.
pub mod Relay
pub mod Size
mod Tests
use alter_chat.Base.Result.{Result, ok, err, ok_or, map_ok, ◌>>=◌, ◌>>◌}
use alter_chat.Base.Bytes.{Bytes}
use alter_chat.Base.{
  ℕ, ◌+◌, ◌-◌, ◌*◌, String, ◌≡◌, Option, none, some, List, [], ◌∷◌, ltb, if◌then◌else◌, u8, length,
  replicate,
}
use mathlib.Core.Option
use alter_chat.Crypto.{Crypto}
use alter_chat.Envelope.{EncryptedPayload, encrypt_for_peer, decrypt_for_me}

pub record OnionPacket : Type 0 where
  pub layer : EncryptedPayload
  pub route_len : ℕ

pub record OnionLayer : Type 0 where
  pub next_hop : Option String
  pub inner_packet : Option OnionPacket
  pub payload : Option Bytes
  pub padding : Bytes

-- `bincode` at a layer.
pub record OnionCodec : Type 0 where
  pub serialize : OnionLayer → Option Bytes
  pub deserialize : Bytes → Option OnionLayer

-- What is serialized can be read back, and each byte of padding adds one byte.
pub record OnionIsLawful (K : OnionCodec) : Type 0 where
  pub read_back : (l : OnionLayer) {b : Bytes} → K.serialize l ≡ some b → K.deserialize b ≡ some l
  pub size :
      (l : OnionLayer) {b : Bytes} (padding : Bytes)
      → K.serialize (record l { padding = [] }) ≡ some b
      → (c : Bytes) × (K.serialize (record l { padding = padding }) ≡ some c)
        × (length c ≡ length b + length padding)

abbrev pub target_size : ℕ
target_size = 16 * 1024

-- The padding for a layer of `size` bytes; `none` is `vec![0u8; n]` for an `n` below zero, that is
-- near 2 ^ 64, which is more than a vector can hold.
unfoldable pub padding_for : ℕ → Option Bytes
padding_for size =
    if ltb size target_size
    then if ltb target_size (size + 8) then none else some (replicate (target_size - size - 8) 0)
    else some []

-- `route.get(hop_index + 1).map(|(next_peer, _)| next_peer.clone())`
abbrev pub next_of : List (String × Bytes) → Option String
next_of [] = none
next_of (hop ∷ route) = some hop.0

-- The layer for a hop, before its padding: the hops behind it, and what was wrapped for them. The last
-- hop finds `next_payload` there to take.
abbrev pub layer_for : List (String × Bytes) → Option OnionPacket → Bytes → OnionLayer
layer_for route next_packet payload = record {
  next_hop = next_of route;
  inner_packet = next_packet;
  payload = elim next_packet [ none ↦ some payload | some p ↦ none ];
  padding = [];
}

module _ (C : Crypto) (K : OnionCodec) where
  -- The two serializations of a layer, with the padding between them.
  unfoldable pub padded_bytes : OnionLayer → Option (Result Bytes)
  padded_bytes l = elim (K.serialize l) [
    | none ↦ some (err "onion serialize failed")
    | some initial_bytes ↦ elim (padding_for (length initial_bytes)) [
      | none ↦ none
      | some padding ↦
          some (ok_or (K.serialize (record l { padding = padding })) "onion serialize failed")
    ]
  ]

  -- One round of the loop, for the hop with this public key.
  unfoldable pub wrap_layer : Bytes × Bytes → ℕ → Bytes → OnionLayer → Option (Result OnionPacket)
  wrap_layer draw route_len pubkey l =
      Option.map
        (λ r. r >>= λ bytes.
          map_ok (λ layer. record { layer = layer; route_len = u8 route_len })
            (encrypt_for_peer C draw.0 draw.1 pubkey bytes))
        (padded_bytes l)

  -- The loop from the last hop back to this one; the last hop takes the payload.
  unfoldable pub wrap_from :
      (ℕ → Bytes × Bytes)
      → ℕ
      → ℕ
      → Bytes
      → List (String × Bytes)
      → Option (Result (Option OnionPacket))
  wrap_from draws route_len hop_index payload [] = some (ok none)
  wrap_from draws route_len hop_index payload (hop ∷ route) =
      elim (wrap_from draws route_len (hop_index + 1) payload route) [
        | none ↦ none
        | some r ↦ elim r [
          | err e ↦ some (err e)
          | ok next_packet ↦ Option.map (map_ok some) (
              wrap_layer (draws hop_index) route_len hop.1 (record {
                next_hop = next_of route;
                inner_packet = next_packet;
                payload = elim next_packet [ none ↦ some payload | some p ↦ none ];
                padding = [];
              }))
        ]
      ]

  unfoldable pub wrap_onion :
      (ℕ → Bytes × Bytes) → List (String × Bytes) → Bytes → Option (Result OnionPacket)
  wrap_onion draws route payload =
      Option.map (λ r. r >>= λ next_packet. ok_or next_packet "empty onion route")
        (wrap_from draws (length route) 0 payload route)

  unfoldable pub peel_onion : Bytes → OnionPacket → Result OnionLayer
  peel_onion my_secret packet = do
    bytes ← decrypt_for_me C my_secret packet.layer
    ok_or (K.deserialize bytes) "onion deserialize failed"
