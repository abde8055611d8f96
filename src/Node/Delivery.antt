-- ===== src/Node/Delivery.antt =====
-- A message of a room on its way from one node to another
-- (`SendMessage` and the event of gossipsub in alterchat-ui/src-tauri/src/lib.rs).
pub mod Mailbox
mod Toy
mod Tests
use alter_chat.Base.{
  String, true, false, Option, some, List, [], ◌∷◌, ◌≡◌, ◌<◌, ◌^◌, refl, sym, ◌∙◌, arith, length,
  inl, inr, Bool-cases,
}
use mathlib.Core.Option
use alter_chat.Base.Bytes.{Bytes}
use alter_chat.Base.Equality.{◌==◌, string_eq}
use alter_chat.Base.Result.{ok}
use alter_chat.Int.{ℤ}
use alter_chat.Crypto.{IsLawful}
use alter_chat.Traffic.{pad_message, random_send_delay}
use alter_chat.Traffic.Padding.{unpad_message-pad_message}
use alter_chat.Crdt.{Room, add_message}
use alter_chat.Crdt.Published.{AutomergeIsLawful, add_message-eq-ok, merge-save}
use alter_chat.Governance.Types.{Permission}
use alter_chat.Db.Schema.{Db}
use alter_chat.Db.Rooms.{load_room, save_room}
use alter_chat.Db.Messages.{index_room_message}
use alter_chat.Node.Types.{World, Moment, Node, Effect, emit, publish, sleep, chat}
use alter_chat.Node.Commands.{
  revocation_topic, allowed_in, show_history, send_message, send_in_room,
}
use alter_chat.Node.Outbox.{byte_at}
use alter_chat.Node.Events.{on_gossip, on_document}
use alter_chat.Node.Gossip.{load_room-save_room}

-- What is published among what goes out.
unfoldable pub published : List Effect → List (String × Bytes)
published [] = []
published (publish topic bytes ∷ effects) = (topic, bytes) ∷ published effects
published (e ∷ effects) = published effects

-- The document that a node has stored for the room that it is in.
abbrev pub stored_document : {W : World} → Node W → Option Bytes
stored_document node = Option.bind node.conn (load_room node.topic)

module _ (W : World) (m : Moment) (words nick : String) (ttl : Option ℤ) (a : Node W) (db : Db)
    (bytes : Bytes) (room : Room W.A) (open_db : a.conn ≡ some db) (started : a.swarm ≡ true)
    (allowed : allowed_in W m a.topic a.peer_id Permission.write db ≡ true)
    (added : add_message W.A W.E.C W.pbkdf2 m.now (m.draw 1) a.peer_id nick words ttl a.room
      ≡ some (ok bytes, room)) where
  -- What the sender does.
  send_message-published :
      (effects : List Effect) × (a' : Node W) × (send_message W m words nick ttl a
        ≡ some (effects, a'))
      × (published effects ≡ (a.topic, pad_message bytes) ∷ [])
      × (a'.room ≡ room)
      × (stored_document a' ≡ some bytes)
  unfolding send_message send_in_room published index_room_message load_room Option.bind
  send_message-published =
      let out : List Effect =
        publish a.topic (pad_message bytes)
        ∷ emit "new-message" (
            chat (record {
              peer_id = a.peer_id;
              sender = nick;
              text = words;
              timestamp = m.now;
              ttl = ttl;
            }))
        ∷ [] in
      let a' : Node W = record a {
        room = room;
        conn = some (index_room_message a.topic nick words m.now (save_room a.topic bytes db));
      } in
      let stored = load_room-save_room a.topic bytes db in
      elim (Bool-cases a.msg_delay) [
        | inl e ↦ (
          sleep (random_send_delay (byte_at (m.draw 0) 0)) ∷ out,
          a',
          ground (arith, open_db, started, allowed, added, e),
          refl,
          refl,
          stored,
        )
        | inr e ↦ (out, a', ground (arith, open_db, started, allowed, added, e), refl, refl, stored)
      ]

  -- What the receiver does.
  on_gossip-published :
      IsLawful W.E.C
      → AutomergeIsLawful W.A
      → (m' : Moment) (topic : String) (b : Node W) (db' : Db) {doc : W.A.Doc} {shown : List Effect}
      → length (m.draw 1) ≡ 12
      → length bytes < 2 ^ 32
      → b.conn ≡ some db'
      → (topic == revocation_topic) ≡ false
      → a.room.encryption_key ≡ b.room.encryption_key
      → W.A.merge b.room.doc room.doc ≡ ok doc
      → show_history W m' (record b.room { doc = doc }) ≡ some shown
      → on_gossip W m' topic (pad_message bytes) b
        ≡ some (
          shown,
          record b {
            room = record b.room { doc = doc };
            conn = some (save_room b.topic bytes db');
          },
        )
  unfolding on_gossip on_document
  on_gossip-published L lawful m' topic b db' size short open_db' other same_key merged told =
      let (saved, key) =
        add_message-eq-ok W.A W.E.C W.pbkdf2 m.now (m.draw 1) a.peer_id nick words ttl a.room
          added in
      ground (
        arith,
        open_db',
        other,
        unpad_message-pad_message bytes short,
        merge-save W.A W.E.C W.pbkdf2 L lawful (m.draw 1) bytes room b.room size saved
            (key ∙ same_key) merged,
        told,
      )

  -- A message that the user may send to the room, and that its document takes, is published once,
  -- and what is published has its effect on every node with a database that is in a room with the
  -- same key: the document that the sender has then is merged into its own, the windows get the
  -- history of the result, and what it stores for its room is what the sender stores (lawful
  -- primitives, a document that loads as it was saved, a nonce of 12 bytes, less than 2^32 bytes, a
  -- topic other than that of revocations, a merge that succeeds and a history without a panic).
  pub on_gossip-send_message :
      IsLawful W.E.C
      → AutomergeIsLawful W.A
      → (m' : Moment) (b : Node W) (db' : Db) {doc : W.A.Doc} {shown : List Effect}
      → length (m.draw 1) ≡ 12
      → length bytes < 2 ^ 32
      → b.conn ≡ some db'
      → (a.topic == revocation_topic) ≡ false
      → a.room.encryption_key ≡ b.room.encryption_key
      → W.A.merge b.room.doc room.doc ≡ ok doc
      → show_history W m' (record b.room { doc = doc }) ≡ some shown
      → (effects : List Effect) × (a' : Node W) × (b' : Node W) × (content : Bytes) × (send_message
            W m words nick ttl a
          ≡ some (effects, a'))
        × (published effects ≡ (a.topic, content) ∷ [])
        × (on_gossip W m' a.topic content b ≡ some (shown, b'))
        × (b'.room ≡ record b.room { doc = doc })
        × (stored_document b' ≡ stored_document a')
  unfolding load_room Option.bind
  on_gossip-send_message L lawful m' b db' size short open_db' other same_key merged told =
      let (effects, a', sent, out, _, stored) = send_message-published in
      (
        effects,
        a',
        _,
        pad_message bytes,
        sent,
        out,
        on_gossip-published L lawful m' a.topic b db' size short open_db' other same_key merged
            told,
        refl,
        load_room-save_room b.topic bytes db' ∙ sym stored,
      )
