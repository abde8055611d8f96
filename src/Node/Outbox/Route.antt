-- ===== src/Node/Outbox/Route.antt =====
-- The way of a private message to its receiver (`SendPrivateMessage` in
-- alterchat-ui/src-tauri/src/lib.rs): by itself or in an onion. Of the moment, the secret and the
-- nonce of the sealed request are drawn, and a pair for each hop. A panic in `wrap_onion` is `none`.
use alter_chat.Base.{
  ℕ, ◌+◌, ◌-◌, ◌*◌, ◌%◌, ◌^◌, String, Bool, true, false, not, ◌&&◌, Option, none, some, List, [],
  ◌∷◌, length, get_elem?, if◌then◌else◌,
}
use mathlib.Core.Option
use alter_chat.Base.Bytes.{Bytes}
use alter_chat.Base.Equality.{◌==◌, string_eq}
use alter_chat.Base.Result.{Result, ok, err}
use alter_chat.Int.{ℤ, pos, negsuc}
use alter_chat.Envelope.{sealed_send}
use alter_chat.Onion.{wrap_onion}
use alter_chat.FileTransfer.{P2pRequest, onion_forward}
use alter_chat.Db.Rows.{Friend}
use alter_chat.Node.Types.{World, Moment, decode_x25519_hex}

-- `timestamp as usize`
unfoldable pub usize_of : ℤ → ℕ
usize_of (pos n) = n
usize_of (negsuc n) = 2 ^ 64 - 1 - n

abbrev has_key : Friend → Bool
has_key f = elim f.offline_pubkey [ none ↦ false | some key ↦ true ]

-- The friends that a message to a peer can go through.
unfoldable pub possible_relays : String → List Friend → List Friend
possible_relays peer [] = []
possible_relays peer (f ∷ friends) =
    let rest = possible_relays peer friends in
    if not (f.peer_id == peer) && (has_key f && not f.blocked) then f ∷ rest else rest

abbrev from_result : {T : Type 0} → Result T → Option T
from_result (ok t) = some t
from_result (err e) = none

module _ (W : World) (m : Moment) where
  -- The request sealed for its receiver in an onion of two hops, with the relay that gets it; the inner
  -- `none` is that it is not possible.
  unfoldable pub onion_request :
      ℤ
      → String
      → Bytes
      → String
      → Bytes
      → P2pRequest
      → List Friend
      → Option (Option (String × P2pRequest))
  onion_request timestamp my_peer_id secret peer pk req friends =
      let relays = possible_relays peer friends in
      let sealed_bytes = Option.bind (W.requests.serialize req) λ req_bytes.
        Option.bind
          (from_result
            (sealed_send W.E.C W.sealed_inner (m.draw 3) (m.draw 4) secret my_peer_id pk req_bytes))
          W.sealed.serialize in
      let hop : Option (String × Bytes) =
        (Option.bind (get_elem? relays (usize_of timestamp % length relays)) λ relay.
          Option.bind relay.offline_pubkey λ relay_pk_hex.
            Option.bind (decode_x25519_hex W relay_pk_hex) λ relay_pk.
              if W.parse_peer relay.peer_id then some (relay.peer_id, relay_pk) else none) in
      elim hop [
        | none ↦ some none
        | some (relay_peer_id, relay_pk) ↦ elim sealed_bytes [
          | none ↦ some none
          | some bytes ↦
              Option.map
                (λ wrapped. Option.bind (from_result wrapped) λ packet.
                  Option.map (λ onion_bytes. (relay_peer_id, onion_forward onion_bytes))
                    (W.packets.serialize packet))
                (wrap_onion W.E.C W.layers (λ i. (m.draw (8 + 2 * i), m.draw (9 + 2 * i)))
                  ((relay_peer_id, relay_pk) ∷ (peer, pk) ∷ []) bytes)
        ]
      ]

  -- Where the request goes: through a relay if that is wanted and possible.
  unfoldable pub route_request :
      Bool
      → ℤ
      → String
      → Bytes
      → String
      → Bytes
      → P2pRequest
      → List Friend
      → Option (String × P2pRequest)
  route_request use_onion timestamp my_peer_id secret peer pk req friends =
      let relayed = onion_request timestamp my_peer_id secret peer pk req friends in
      if use_onion
      then Option.map (λ found. Option.get_or found (peer, req)) relayed
      else some (peer, req)
