-- ===== src/Db/Schema.antt =====
-- The database as a whole, and its migrations (alterchat-ui/src-tauri/src/db.rs). Every function gets
-- its connection from `init_db`, which migrates first, so that a statement on a missing table does
-- not arise; what fails in the file system is not modelled.
use alter_chat.Base.Result.{ok, err}
use alter_chat.Base.Member.{any}
use alter_chat.Base.Equality.{◌==◌, string_eq, bytes_eq}
use alter_chat.Base.{ℕ, String, false, Option, none, some, List, [], ◌∷◌, ◌++◌, eqb, if◌then◌else◌}
use alter_chat.Db.Rows.{
  RoomRow, SettingRow, AppSettingRow, Friend, PrivateMessage, SavedGroup, PeerSettings,
  RoomSettings, RatchetRow, StorageSettings, InviteRow, RoleRow, GrantRow, EdgeRow, CapabilityRow,
  ManifestRow, ChunkRow, PluginRow, SearchRow, KnownPeerRow, PreKeyRow, RevokedRow, UsedOpkRow,
}
use alter_chat.Int.{pos}
use alter_chat.Base.Action.{Action}

pub record Db : Type 0 where
  pub user_version : ℕ
  -- The names of the tables that have been created.
  pub tables : List String
  pub rooms : List RoomRow
  pub settings : List SettingRow
  pub app_settings : List AppSettingRow
  pub friends : List Friend
  pub private_messages : List PrivateMessage
  pub saved_groups : List SavedGroup
  pub peer_settings : List PeerSettings
  pub room_settings : List RoomSettings
  pub ratchet_states : List RatchetRow
  -- The only row that the check of its id allows.
  pub storage_settings : Option StorageSettings
  pub room_invites : List InviteRow
  pub room_roles : List RoleRow
  pub permission_grants : List GrantRow
  pub trust_edges : List EdgeRow
  pub peer_capabilities : List CapabilityRow
  pub file_manifests : List ManifestRow
  pub stored_chunks : List ChunkRow
  pub plugin_registry : List PluginRow
  pub message_search : List SearchRow
  pub known_peers : List KnownPeerRow
  pub prekey_bundles : List PreKeyRow
  pub revoked_invites : List RevokedRow
  pub used_opk_ids : List UsedOpkRow

-- A file that no migration has touched.
abbrev pub fresh_db : Db
fresh_db = record {
  user_version = 0;
  tables = [];
  rooms = [];
  settings = [];
  app_settings = [];
  friends = [];
  private_messages = [];
  saved_groups = [];
  peer_settings = [];
  room_settings = [];
  ratchet_states = [];
  storage_settings = none;
  room_invites = [];
  room_roles = [];
  permission_grants = [];
  trust_edges = [];
  peer_capabilities = [];
  file_manifests = [];
  stored_chunks = [];
  plugin_registry = [];
  message_search = [];
  known_peers = [];
  prekey_bundles = [];
  revoked_invites = [];
  used_opk_ids = [];
}

abbrev pub current_db_version : ℕ
current_db_version = 2

abbrev pub v1_tables : List String
v1_tables =
    "rooms" ∷ "settings" ∷ "app_settings" ∷ "friends" ∷ "private_messages" ∷ "saved_groups"
    ∷ "peer_settings" ∷ "room_settings" ∷ "ratchet_states" ∷ "storage_settings" ∷ "room_invites"
    ∷ "room_roles" ∷ "permission_grants" ∷ "trust_edges" ∷ "peer_capabilities" ∷ "file_manifests"
    ∷ "stored_chunks" ∷ "plugin_registry" ∷ "message_search" ∷ "known_peers" ∷ "prekey_bundles"
    ∷ "revoked_invites" ∷ []

-- `CREATE TABLE IF NOT EXISTS` of each name.
unfoldable pub create_tables : List String → List String → List String
create_tables [] tables = tables
create_tables (name ∷ names) tables =
    create_tables names (if any (λ t. t == name) tables then tables else tables ++ name ∷ [])

-- The defaults of the columns.
abbrev pub default_storage_settings : StorageSettings
default_storage_settings = record {
  storage_node_enabled = false;
  quota_mb = pos 512;
  retention_days = pos 7;
}

-- `INSERT OR IGNORE INTO storage_settings (id) VALUES (1)`
abbrev pub or_default : Option StorageSettings → Option StorageSettings
or_default none = some default_storage_settings
or_default (some s) = some s

unfoldable pub migrate_v0_to_v1 : Db → Db
migrate_v0_to_v1 db = record db {
  tables = create_tables v1_tables db.tables;
  storage_settings = or_default db.storage_settings;
  user_version = 1;
}

unfoldable pub migrate_v1_to_v2 : Db → Db
migrate_v1_to_v2 db = record db {
  tables = create_tables ("used_opk_ids" ∷ []) db.tables;
  user_version = 2;
}

-- The versions are not printed in the error's text.
unfoldable pub run_migrations : Action Db (Unit {0})
run_migrations db =
    if eqb db.user_version 0
    then (ok tt, migrate_v1_to_v2 (migrate_v0_to_v1 db))
    else if eqb db.user_version 1
    then (ok tt, migrate_v1_to_v2 db)
    else if eqb db.user_version current_db_version
    then (ok tt, db)
    else (
      err "Database version is newer than the supported version. Please upgrade the application.",
      db,
    )
