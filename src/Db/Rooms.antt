-- ===== src/Db/Rooms.antt =====
-- Rooms, groups, invitations, roles, grants and trust in the database
-- (alterchat-ui/src-tauri/src/db.rs). The time `now` of `now_ms` is an argument.
use alter_chat.Base.{
  ℕ, String, Bool, true, false, not, ◌&&◌, Option, none, some, List, [], ◌∷◌, map, length, ltb,
}
use mathlib.Core.Option
use alter_chat.Base.Equality.{bytes_eq, ◌==◌, string_eq, strings_eq}
use alter_chat.Base.Bytes.{Bytes}
use alter_chat.Base.Action.{Action, pure, lift, modify, ◌>>=◌, ◌>>◌}
use alter_chat.Int.{ℤ, pos, ◌+ℤ◌, ltb_ℤ}
use alter_chat.Governance.Types.{Role, PermissionGrant}
use alter_chat.Governance.Access.{default_roles}
use alter_chat.Db.Json.{Json}
use alter_chat.Db.Table.{
  find, upsert, insert_or_ignore, select, update_where, delete_where, order_by,
}
use alter_chat.Db.Rows.{RoomRow, SavedGroup, InviteRow, RoleRow, GrantRow, EdgeRow, RevokedRow}
use alter_chat.Db.Schema.{Db}
use alter_chat.Db.Settings.{room_key, default_room_settings}

abbrev pub room_row_key : RoomRow → String
room_row_key r = r.channel_name

abbrev pub group_key : SavedGroup → String
group_key r = r.channel_name

abbrev pub invite_key : InviteRow → String
invite_key r = r.invite_id

abbrev pub role_key : RoleRow → List String
role_key r = r.room_id ∷ r.role_id ∷ []

abbrev pub grant_key : GrantRow → List String
grant_key r = r.room_id ∷ r.subject_peer_id ∷ r.role_id ∷ []

abbrev pub edge_key : EdgeRow → List String
edge_key r = r.from_peer_id ∷ r.to_peer_id ∷ []

abbrev pub revoked_key : RevokedRow → String
revoked_key r = r.invite_id

unfoldable pub save_room : String → Bytes → Db → Db
save_room channel blob db = record db {
  rooms =
      upsert room_row_key (λ r. record r { automerge_blob = blob })
        (record { channel_name = channel; automerge_blob = blob }) db.rooms;
}

unfoldable pub load_room : String → Db → Option Bytes
load_room channel db = Option.map (λ row. row.automerge_blob) (find room_row_key channel db.rooms)

-- The defaults of the other columns.
abbrev pub new_group : String → Option String → SavedGroup
new_group channel_name password = record {
  channel_name = channel_name;
  password = password;
  default_ttl = none;
  persistence_enabled = true;
  invite_only = false;
  notifications_enabled = true;
  retention_days = none;
}

unfoldable pub save_group : String → Option String → Db → Db
save_group channel_name password db = record db {
  saved_groups =
      upsert group_key (λ g. record g { password = password }) (new_group channel_name password)
        db.saved_groups;
  room_settings = insert_or_ignore room_key (default_room_settings channel_name) db.room_settings;
}

unfoldable pub remove_group : String → Db → Db
remove_group channel_name db = record db {
  saved_groups = delete_where (λ g. g.channel_name == channel_name) db.saved_groups;
}

unfoldable pub get_saved_groups : Db → List SavedGroup
get_saved_groups db = db.saved_groups

unfoldable pub save_invite : ℤ → String → String → String → Db → Db
save_invite now invite_id room_id token_json db = record db {
  room_invites =
      upsert invite_key (λ r. record r { token_json = token_json })
        (record {
          invite_id = invite_id;
          room_id = room_id;
          token_json = token_json;
          revoked = false;
          uses = pos 0;
          created_at = now;
        })
        db.room_invites;
}

unfoldable pub get_invite_state : String → Db → Option (Bool × ℤ)
get_invite_state invite_id db =
    Option.map (λ row. (row.revoked, row.uses)) (find invite_key invite_id db.room_invites)

unfoldable pub increment_invite_use : String → Db → Db
increment_invite_use invite_id db = record db {
  room_invites =
      update_where (λ r. invite_key r == invite_id) (λ r. record r { uses = r.uses +ℤ pos 1 })
        db.room_invites;
}

unfoldable pub list_invites : String → Db → List String
list_invites room_id db =
    map (λ row. row.token_json)
      (select (λ row. row.room_id == room_id && not row.revoked) db.room_invites)

unfoldable pub revoke_invite : String → Db → Db
revoke_invite invite_id db = record db {
  room_invites =
      update_where (λ r. invite_key r == invite_id) (λ r. record r { revoked = true })
        db.room_invites;
}

unfoldable pub save_role : String → String → String → Db → Db
save_role room_id role_id role_json db = record db {
  room_roles =
      upsert role_key (λ r. record r { role_json = role_json })
        (record { room_id = room_id; role_id = role_id; role_json = role_json }) db.room_roles;
}

unfoldable pub list_roles : String → Db → List String
list_roles room_id db =
    map (λ row. row.role_json) (select (λ row. row.room_id == room_id) db.room_roles)

unfoldable pub save_permission_grant : String → String → String → String → Db → Db
save_permission_grant room_id subject_peer_id role_id grant_json db = record db {
  permission_grants =
      upsert grant_key (λ r. record r { grant_json = grant_json })
        (record {
          room_id = room_id;
          subject_peer_id = subject_peer_id;
          role_id = role_id;
          grant_json = grant_json;
        })
        db.permission_grants;
}

unfoldable pub list_permission_grants : String → Db → List String
list_permission_grants room_id db =
    map (λ row. row.grant_json) (select (λ row. row.room_id == room_id) db.permission_grants)

unfoldable pub count_roles : String → Db → ℕ
count_roles room_id db = length (select (λ row. row.room_id == room_id) db.room_roles)

-- The loop over the default roles.
unfoldable pub save_roles : Json Role → String → List Role → Action Db (Unit {0})
save_roles J room_id [] = pure tt
save_roles J room_id (role ∷ roles) = do
  role_json ← lift (J.to_string role)
  modify (save_role room_id role.role_id role_json)
  save_roles J room_id roles

unfoldable pub seed_default_roles :
    Json Role → Json PermissionGrant → String → Option String → Action Db (Unit {0})
seed_default_roles J G room_id owner_grant_json = do
  save_roles J room_id (default_roles room_id)
  elim owner_grant_json [
    | none ↦ pure tt
    | some grant_json ↦ do
      grant ← lift (G.from_str grant_json)
      modify (save_permission_grant room_id grant.subject_peer_id grant.role_id grant_json)
  ]

unfoldable pub save_trust_edge : String → String → String → Db → Db
save_trust_edge from_peer_id to_peer_id edge_json db = record db {
  trust_edges =
      upsert edge_key (λ r. record r { edge_json = edge_json })
        (record { from_peer_id = from_peer_id; to_peer_id = to_peer_id; edge_json = edge_json })
        db.trust_edges;
}

unfoldable pub list_trust_edges : Db → List String
list_trust_edges db = map (λ row. row.edge_json) db.trust_edges

unfoldable pub mark_invite_revoked : ℤ → String → String → Db → Db
mark_invite_revoked now invite_id revoked_by db = record db {
  revoked_invites =
      insert_or_ignore revoked_key
        (record { invite_id = invite_id; revoked_at = now; revoked_by = revoked_by })
        db.revoked_invites;
}

unfoldable pub is_invite_globally_revoked : String → Db → Bool
is_invite_globally_revoked invite_id db =
    ltb 0 (length (select (λ r. r.invite_id == invite_id) db.revoked_invites))

unfoldable pub list_revoked_invite_ids : Db → List String
list_revoked_invite_ids db =
    map (λ r. r.invite_id) (order_by (λ a b. ltb_ℤ b.revoked_at a.revoked_at) db.revoked_invites)
