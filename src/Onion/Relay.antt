-- ===== src/Onion/Relay.antt =====
-- What each hop of a route peels off (alterchat-core/src/onion.rs).
use alter_chat.Envelope.RoundTrip.{decrypt_for_me-encrypt_for_peer}
use alter_chat.Envelope.{encrypt_for_peer, EncryptedPayload}
use alter_chat.Base.Result.{Result, err, ok_or, map_ok, ◌>>=◌, Result-cases, ok}
use alter_chat.Base.Bytes.{Bytes}
use alter_chat.Base.{
  ◌+◌, refl, ap, ◌∙◌, Option, subst, inl, inr, arith, u8, Option-cases, length, ℕ, String, ◌≡◌,
  none, some, List, [], ◌∷◌,
}
use mathlib.Core.Option
use alter_chat.Crypto.{Crypto, IsLawful}
use alter_chat.Onion.{
  layer_for, wrap_onion, wrap_from, EncryptedPayload, padding_for, OnionPacket, OnionLayer,
  OnionCodec, OnionIsLawful, padded_bytes, wrap_layer, peel_onion,
}

-- A route, as the sender knows it, of hops with their names and secrets.
abbrev pub public_route : Crypto → List (String × Bytes) → List (String × Bytes)
public_route C [] = []
public_route C (hop ∷ hops) = (hop.0, C.public_key hop.1) ∷ public_route C hops

module _ (C : Crypto) (K : OnionCodec) where
  -- `packet` goes over the hops: each but the last peels off the name of the next and a packet for
  -- it, and no payload; the last peels off the payload, and neither a name nor a packet.
  abbrev pub Relays : List (String × Bytes) → OnionPacket → Bytes → Type 0
  Relays [] packet payload = ⊥
  Relays (hop ∷ []) packet payload =
      (l : OnionLayer) × (peel_onion C K hop.1 packet ≡ ok l)
      × (l.next_hop ≡ none)
      × (l.inner_packet ≡ none)
      × (l.payload ≡ some payload)
  Relays (hop ∷ next ∷ hops) packet payload =
      (l : OnionLayer) × (inner : OnionPacket) × (peel_onion C K hop.1 packet ≡ ok l)
      × (l.next_hop ≡ some next.0)
      × (l.payload ≡ none)
      × (l.inner_packet ≡ some inner)
      × Relays (next ∷ hops) inner payload

module _ (C : Crypto) (K : OnionCodec) (L : IsLawful C) (M : OnionIsLawful K) where
  peeled :
      (draw : Bytes × Bytes) (n : ℕ) (secret : Bytes) (l : OnionLayer) (p c : Bytes)
      (sealed : EncryptedPayload) {packet : OnionPacket}
      → K.serialize (record l { padding = p }) ≡ some c
      → encrypt_for_peer C draw.0 draw.1 (C.public_key secret) c ≡ ok sealed
      → record { layer = sealed; route_len = u8 n } ≡ packet
      → peel_onion C K secret packet ≡ ok (record l { padding = p })
  unfolding peel_onion
  peeled draw n secret l p c sealed {packet} u v e =
      subst (λ q. peel_onion C K secret q ≡ ok (record l { padding = p })) e
        (ground (
          arith,
          decrypt_for_me-encrypt_for_peer C L draw.0 draw.1 secret c v,
          M.read_back (record l { padding = p }) u,
        ))

  -- The hop that a layer is wrapped for peels off that layer, but for its padding.
  peel_onion-wrap_layer :
      (draw : Bytes × Bytes) (n : ℕ) (secret : Bytes) (l : OnionLayer) {packet : OnionPacket}
      → wrap_layer C K draw n (C.public_key secret) l ≡ some (ok packet)
      → (padding : Bytes) × (peel_onion C K secret packet ≡ ok (record l { padding = padding }))
  unfolding wrap_layer padded_bytes peel_onion
  peel_onion-wrap_layer draw n secret l {packet} h = elim (Option-cases (K.serialize l)) [
    | inl n ↦ ground (arith, n, h)
    | inr (b, y) ↦ elim (Option-cases (padding_for (length b))) [
      | inl n ↦ ground (arith, y, n, h)
      | inr (p, z) ↦ elim (Option-cases (K.serialize (record l { padding = p }))) [
        | inl n ↦ ground (arith, y, z, n, h)
        | inr (c, u) ↦
            elim (Result-cases (encrypt_for_peer C draw.0 draw.1 (C.public_key secret) c)) [
              | inl (e, v) ↦ ground (arith, y, z, u, v, h)
              | inr (sealed, v) ↦ (
                p,
                peeled draw n secret l p c sealed {packet = packet} u v
                    (ground (arith, y, z, u, v, h)),
              )
            ]
      ]
    ]
  ]

  -- A layer that was wrapped, from what the loop makes of it.
  unwrap_some :
      (x : Option (Result OnionPacket)) {packet : OnionPacket}
      → Option.map (map_ok some) x ≡ some (ok (some packet))
      → x ≡ some (ok packet)
  unwrap_some none h = ground arith
  unwrap_some (some (err e)) h = ground arith
  unwrap_some (some (ok p)) h = ground arith

  not_none : (x : Option (Result OnionPacket)) → Option.map (map_ok some) x ≡ some (ok none) → ⊥
  not_none none h = ground arith
  not_none (some (err e)) h = ground arith
  not_none (some (ok p)) h = ground arith

  wrap_from_cons :
      (draws : ℕ → Bytes × Bytes) (n i : ℕ) (payload : Bytes) (hop : String × Bytes)
      (route : List (String × Bytes)) (o : Option OnionPacket)
      → wrap_from C K draws n i payload (hop ∷ route) ≡ some (ok o)
      → (inner : Option OnionPacket) × (wrap_from C K draws n (i + 1) payload route
          ≡ some (ok inner))
        × (Option.map
              (map_ok some)
              (wrap_layer C K (draws i) n hop.1 (layer_for route inner payload))
            ≡ some (ok o))
  unfolding wrap_from
  wrap_from_cons draws n i payload hop route o h =
      elim (Option-cases (wrap_from C K draws n (i + 1) payload route)) [
        | inl e ↦ ground (arith, e, h)
        | inr (r, e) ↦ elim (Result-cases r) [
          | inl (t, u) ↦ ground (arith, e, u, h)
          | inr (inner, u) ↦ (inner, e ∙ ap some u, ground (arith, e, u, h))
        ]
      ]

  wrap_from-Relays :
      (draws : ℕ → Bytes × Bytes) (n i : ℕ) (payload : Bytes) (hop : String × Bytes)
      (hops : List (String × Bytes)) {packet : OnionPacket}
      → wrap_from C K draws n i payload (public_route C (hop ∷ hops)) ≡ some (ok (some packet))
      → Relays C K (hop ∷ hops) packet payload
  unfolding wrap_from
  wrap_from-Relays draws n i payload hop [] {packet} h =
      let (inner, e, made) =
        wrap_from_cons draws n i payload (hop.0, C.public_key hop.1) [] (some packet) h in
      let (padding, peel) =
        peel_onion-wrap_layer (draws i) n hop.1 (layer_for [] inner payload) (unwrap_some _ made) in
      (
        record (layer_for [] inner payload) { padding = padding },
        peel,
        refl,
        ground (arith, e),
        ground (arith, e),
      )
  wrap_from-Relays draws n i payload hop (next ∷ hops) {packet} h =
      let (inner, e, made) =
        wrap_from_cons draws n i payload (hop.0, C.public_key hop.1) (public_route C (next ∷ hops))
          (some packet) h in
      elim (Option-cases inner) [
        | inl u ↦
            let (i2, e2, made2) =
              wrap_from_cons draws n (i + 1) payload (next.0, C.public_key next.1)
                (public_route C hops) none (e ∙ ap (λ o. some (ok o)) u) in
            absurd (not_none _ made2)
        | inr (p, u) ↦
            let (padding, peel) =
              peel_onion-wrap_layer (draws i) n hop.1
                (layer_for (public_route C (next ∷ hops)) inner payload) (unwrap_some _ made) in
            (
              _,
              p,
              peel,
              refl,
              ground (arith, u),
              u,
              wrap_from-Relays draws n (i + 1) payload next hops (e ∙ ap (λ o. some (ok o)) u),
            )
      ]

  -- A packet that was wrapped for a route relays its payload: every hop but the last peels off the
  -- name of the next one, a packet for it and nothing of the payload, and the last hop, and only it,
  -- peels off the payload (lawful primitives).
  pub wrap_onion-Relays :
      (draws : ℕ → Bytes × Bytes) (payload : Bytes) (hop : String × Bytes)
      (hops : List (String × Bytes)) {packet : OnionPacket}
      → wrap_onion C K draws (public_route C (hop ∷ hops)) payload ≡ some (ok packet)
      → Relays C K (hop ∷ hops) packet payload
  unfolding wrap_onion
  wrap_onion-Relays draws payload hop hops {packet} h =
      let n = length (public_route C (hop ∷ hops)) in
      wrap_from-Relays draws n 0 payload hop hops
        (wrapped (wrap_from C K draws n 0 payload (public_route C (hop ∷ hops))) h)
    where
      wrapped :
          (x : Option (Result (Option OnionPacket)))
          → Option.map (λ r. r >>= λ next_packet. ok_or next_packet "empty onion route") x
            ≡ some (ok packet)
          → x ≡ some (ok (some packet))
      wrapped none e = ground arith
      wrapped (some (err t)) e = ground arith
      wrapped (some (ok none)) e = ground arith
      wrapped (some (ok (some p))) e = ground arith
