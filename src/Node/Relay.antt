-- ===== src/Node/Relay.antt =====
-- The request that carries an onion packet (`OnionForward` in the handler of
-- alterchat-ui/src-tauri/src/lib.rs). The answer goes out before the packet is looked at.
use alter_chat.Base.{String, true, Option, none, some, List, [], ◌∷◌, length, if◌then◌else◌}
use mathlib.Core.Option
use alter_chat.Base.Bytes.{Bytes}
use alter_chat.Base.Result.{ok, err}
use alter_chat.Envelope.{sealed_receive}
use alter_chat.Onion.{OnionLayer, peel_onion}
use alter_chat.FileTransfer.{P2pRequest, ratchet_private_message, onion_forward, onion_ack}
use alter_chat.Db.Schema.{Db}
use alter_chat.Node.Types.{
  World, Moment, PmPayload, Effect, emit, respond, send_request, text, texts, sized,
}
use alter_chat.Node.Direct.{new_private_message, receive_ratchet_message}

module _ (W : World) where
  -- A layer for another hop.
  unfoldable pub forward_layer : String → String → OnionLayer → List Effect
  forward_layer peer next_hop layer =
      Option.get_or
        (Option.bind layer.inner_packet λ inner.
          Option.bind (W.packets.serialize inner) λ inner_bytes.
            if W.parse_peer next_hop
            then some (
                emit "onion-forwarding" (texts peer next_hop)
                ∷ send_request next_hop (onion_forward inner_bytes)
                ∷ [])
            else none)
        []

  -- Of the requests that a layer can hold, only this one is served.
  unfoldable pub receive_inner :
      Moment → String → Bytes → String → P2pRequest → Db → Option (PmPayload × Db)
  receive_inner m my_peer_id secret sender (ratchet_private_message envelope nick timestamp ttl)
        db =
      receive_ratchet_message W m my_peer_id secret sender envelope nick timestamp ttl db
  receive_inner m my_peer_id secret sender request db = none

  -- A layer for this node: a sealed request, served as its sender's.
  unfoldable pub open_payload : Moment → String → Bytes → Bytes → Db → Option (PmPayload × Db)
  open_payload m my_peer_id secret payload db =
      Option.bind (W.sealed.deserialize payload) λ sealed_msg.
        elim (sealed_receive W.E.C W.sealed_inner secret sealed_msg) [
          | err e ↦ none
          | ok (sender_pubkey, sender, inner_bytes) ↦
              Option.bind (W.requests.deserialize inner_bytes)
                λ request. receive_inner m my_peer_id secret sender request db
        ]

  -- A layer that was peeled.
  unfoldable pub serve_layer :
      Moment → String → Bytes → String → OnionLayer → Option Db → List Effect × Option Db
  serve_layer m my_peer_id secret peer layer conn = elim layer.next_hop [
    | some next_hop ↦ (forward_layer peer next_hop layer, conn)
    | none ↦ elim layer.payload [
      | none ↦ ([], conn)
      | some payload ↦ elim (Option.bind conn (open_payload m my_peer_id secret payload)) [
        | none ↦ ([], conn)
        | some (msg, db) ↦ (new_private_message msg ∷ [], some db)
      ]
    ]
  ]

  unfoldable pub serve_packet :
      Moment → String → Bytes → String → Bytes → Option Db → List Effect × Option Db
  serve_packet m my_peer_id secret peer packet conn = elim (W.packets.deserialize packet) [
    | none ↦ ([], conn)
    | some onion_packet ↦ elim (peel_onion W.E.C W.layers secret onion_packet) [
      | err e ↦ (emit "onion-peel-failed" (text peer) ∷ [], conn)
      | ok layer ↦ serve_layer m my_peer_id secret peer layer conn
    ]
  ]

  unfoldable pub serve_onion_forward :
      Moment → String → Bytes → String → Bytes → Option Db → List Effect × Option Db
  serve_onion_forward m my_peer_id secret peer packet conn =
      let (after, conn') = serve_packet m my_peer_id secret peer packet conn in
      (
        emit "onion-packet-received" (sized peer (length packet))
            ∷ respond (onion_ack true)
            ∷ after,
        conn',
      )
