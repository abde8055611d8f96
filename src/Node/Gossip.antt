-- ===== src/Node/Gossip.antt =====
-- What a published message leaves in the database (alterchat-ui/src-tauri/src/lib.rs).
use alter_chat.Base.{String, true, false, some, List, [], ◌∷◌, ◌≡◌, refl, arith}
use mathlib.Core.Option
use alter_chat.Base.Bytes.{Bytes}
use alter_chat.Base.Equality.{◌==◌, string_eq, ==_refl}
use alter_chat.Base.Result.{ok}
use alter_chat.Int.{ℤ}
use alter_chat.Crdt
use alter_chat.Crdt.{Room}
use alter_chat.Governance.Types.{RevocationAnnouncement}
use alter_chat.Traffic.{unpad_message}
use alter_chat.Db.Schema.{Db}
use alter_chat.Db.Table.{insert_or_ignore}
use alter_chat.Db.Table.Laws.{find-upsert, count-find}
use alter_chat.Db.Rooms.{
  room_row_key, revoked_key, load_room, save_room, revoke_invite, mark_invite_revoked,
  is_invite_globally_revoked,
}
use alter_chat.Node.Types.{World, Moment, Node, Effect, emit, text}
use alter_chat.Db.Rows.{RevokedRow}
use alter_chat.Node.Commands.{revocation_topic, show_history}
use alter_chat.Node.Events.{on_gossip, on_revocation, on_document}

is_invite_globally_revoked-mark_invite_revoked :
    (now : ℤ) (invite_id revoked_by : String) (db : Db)
    → is_invite_globally_revoked invite_id
        (revoke_invite invite_id (mark_invite_revoked now invite_id revoked_by db))
      ≡ true
unfolding is_invite_globally_revoked revoke_invite mark_invite_revoked insert_or_ignore
is_invite_globally_revoked-mark_invite_revoked now invite_id revoked_by db =
    let row : RevokedRow = record {
      invite_id = invite_id;
      revoked_at = now;
      revoked_by = revoked_by;
    } in
    ground (
      arith,
      count-find revoked_key invite_id (insert_or_ignore revoked_key row db.revoked_invites),
      find-upsert revoked_key (λ r. r) row db.revoked_invites invite_id (λ r. refl),
      ==_refl invite_id,
    )

pub load_room-save_room :
    (name : String) (blob : Bytes) (db : Db) → load_room name (save_room name blob db) ≡ some blob
unfolding load_room save_room
load_room-save_room name blob db = ground (
  arith,
  ==_refl name,
  find-upsert room_row_key (λ r. record r { automerge_blob = blob })
      (record { channel_name = name; automerge_blob = blob }) db.rooms name (λ r. refl),
)

module _ (W : World) (m : Moment) (content : Bytes) (node : Node W) (db : Db)
    (open_db : node.conn ≡ some db) where
  -- Whoever publishes an announcement, signed or not, has its invitation revoked on every node that
  -- gets it and has a database.
  pub on_gossip_revocation :
      (ann : RevocationAnnouncement)
      → W.revocations.deserialize content ≡ some ann
      → (effects : List Effect) × (after : Node W) × (db' : Db) × (on_gossip W m revocation_topic
            content node
          ≡ some (effects, after))
        × (after.conn ≡ some db')
        × (is_invite_globally_revoked ann.invite_id db' ≡ true)
  unfolding on_gossip on_revocation
  on_gossip_revocation ann read =
      let db' =
        revoke_invite ann.invite_id (mark_invite_revoked m.now ann.invite_id ann.revoked_by db) in
      (
        emit "invite-revoked-global" (text ann.invite_id) ∷ [],
        record node { conn = some db' },
        db',
        ground (arith, open_db, read, ==_refl revocation_topic),
        refl,
        is_invite_globally_revoked-mark_invite_revoked m.now ann.invite_id ann.revoked_by db,
      )

  -- Once a document that came under a topic other than that of revocations is merged into the room,
  -- a node with a database saved the sender's document under the room's name, and not the merged
  -- one, whatever the own one had, if the room's messages can be read.
  pub on_gossip_document :
      (topic : String) (room : Room W.A) (shown : List Effect)
      → (topic == revocation_topic) ≡ false
      → Crdt.merge W.A W.E.C W.pbkdf2 (Option.get_or (unpad_message content) content) node.room
        ≡ (ok tt, room)
      → show_history W m room ≡ some shown
      → (after : Node W) × (db' : Db) × (on_gossip W m topic content node ≡ some (shown, after))
        × (after.conn ≡ some db')
        × (load_room node.topic db' ≡ some (Option.get_or (unpad_message content) content))
  unfolding on_gossip on_document
  on_gossip_document topic room shown other merged told =
      let payload = Option.get_or (unpad_message content) content in
      let db' = save_room node.topic payload db in
      (
        record node { room = room; conn = some db' },
        db',
        ground (arith, open_db, other, merged, told),
        refl,
        load_room-save_room node.topic payload db,
      )
