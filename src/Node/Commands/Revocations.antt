-- ===== src/Node/Commands/Revocations.antt =====
-- The commands that revoke invitations for all (`RevokeInviteGlobal` and `PublishRoomRevocations` in
-- alterchat-ui/src-tauri/src/lib.rs).
use alter_chat.Base.{String, none, some, List, [], ◌∷◌, ◌++◌, if◌then◌else◌}
use alter_chat.Base.Equality.{string_eq}
use alter_chat.Base.Result.{ok, err}
use alter_chat.Base.Text.{as_bytes}
use alter_chat.Envelope.{get_dht_revocation_key}
use alter_chat.Db.Schema.{Db}
use alter_chat.Db.Rooms.{revoke_invite, mark_invite_revoked, list_revoked_invite_ids}
use alter_chat.Node.Types.{World, Moment, Node, Effect, publish, put_record}

-- `governance::REVOCATION_TOPIC`
abbrev pub revocation_topic : String
revocation_topic = "_alterchat_revocations"

module _ (W : World) (m : Moment) where
  -- The list of revoked invitations as a record of the network.
  unfoldable pub publish_revoked : String → Db → List Effect
  publish_revoked room_id db = elim (W.strings.to_string (list_revoked_invite_ids db)) [
    | err e ↦ []
    | ok ids_json ↦ put_record (get_dht_revocation_key W.E.C room_id) (as_bytes ids_json) ∷ []
  ]

  unfoldable pub revoke_invite_global : String → Node W → List Effect × Node W
  revoke_invite_global invite_id node = elim node.conn [
    | none ↦ ([], node)
    | some db ↦
        let after = mark_invite_revoked m.now invite_id node.peer_id (revoke_invite invite_id db) in
        let announced : List Effect =
          elim (W.revocations.serialize (record {
            invite_id = invite_id;
            room_id = node.topic;
            revoked_by = node.peer_id;
            revoked_at = m.now;
            signature = [];
          })) [ none ↦ [] | some bytes ↦ publish revocation_topic bytes ∷ [] ] in
        (
          if node.swarm then announced ++ publish_revoked node.topic after else [],
          record node { conn = some after },
        )
  ]

  unfoldable pub publish_room_revocations : String → Node W → List Effect × Node W
  publish_room_revocations room_id node = elim node.conn [
    | none ↦ ([], node)
    | some db ↦ (if node.swarm then publish_revoked room_id db else [], node)
  ]
