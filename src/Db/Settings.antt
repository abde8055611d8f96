-- ===== src/Db/Settings.antt =====
-- Settings of the application, of peers, of rooms and of the storage node
-- (alterchat-ui/src-tauri/src/db.rs). The time `now` is an argument.
use alter_chat.Base.Result.{Result, ok_or}
use alter_chat.Base.Equality.{◌==◌, string_eq, bytes_eq}
use alter_chat.Base.Action.{Action}
use alter_chat.Base.{String, true, false, Option, none, some}
use mathlib.Core.Option
use alter_chat.Int.{ℤ, pos}
use alter_chat.Db.Table.{find, upsert, insert_or_ignore, update_where}
use alter_chat.Db.Rows.{SettingRow, AppSettingRow, PeerSettings, RoomSettings, StorageSettings}
use alter_chat.Db.Schema.{Db}

abbrev pub setting_key : SettingRow → String
setting_key r = r.key

abbrev pub app_setting_key : AppSettingRow → String
app_setting_key r = r.key

abbrev pub peer_key : PeerSettings → String
peer_key r = r.peer_id

abbrev pub room_key : RoomSettings → String
room_key r = r.channel_name

unfoldable pub save_setting : ℤ → String → String → Db → Db
save_setting now key value db = record db {
  settings =
      upsert setting_key (λ r. record r { value = value }) (record { key = key; value = value })
        db.settings;
  app_settings =
      upsert app_setting_key (λ r. record r { value = value; updated_at = now })
        (record { key = key; value = value; updated_at = now }) db.app_settings;
}

unfoldable pub load_setting : String → Db → Option String
load_setting key db = elim (find app_setting_key key db.app_settings) [
  | some row ↦ some row.value
  | none ↦ Option.map (λ row. row.value) (find setting_key key db.settings)
]

-- The defaults of the columns.
abbrev pub default_peer_settings : String → PeerSettings
default_peer_settings peer_id = record {
  peer_id = peer_id;
  trust_level = pos 0;
  blocked = false;
  muted = false;
  rate_limit_per_minute = pos 30;
  proof_of_work_required = false;
}

abbrev pub default_room_settings : String → RoomSettings
default_room_settings channel_name = record {
  channel_name = channel_name;
  default_ttl = none;
  retention_days = none;
  persistence_enabled = true;
  invite_only = false;
  notifications_enabled = true;
}

-- A query for one row fails if there is none.
abbrev pub no_rows : String
no_rows = "Query returned no rows"

unfoldable pub get_peer_settings : String → Action Db PeerSettings
get_peer_settings peer_id db =
    let table = insert_or_ignore peer_key (default_peer_settings peer_id) db.peer_settings in
    (ok_or (find peer_key peer_id table) no_rows, record db { peer_settings = table })

unfoldable pub save_peer_settings : PeerSettings → Db → Db
save_peer_settings settings db = record db {
  peer_settings =
      upsert peer_key
        (λ r. record r {
          trust_level = settings.trust_level;
          blocked = settings.blocked;
          muted = settings.muted;
          rate_limit_per_minute = settings.rate_limit_per_minute;
          proof_of_work_required = settings.proof_of_work_required;
        })
        settings db.peer_settings;
  friends =
      update_where (λ f. f.peer_id == settings.peer_id)
        (λ f. record f {
          trust_level = settings.trust_level;
          blocked = settings.blocked;
          muted = settings.muted;
        })
        db.friends;
}

unfoldable pub get_room_settings : String → Action Db RoomSettings
get_room_settings channel_name db =
    let table = insert_or_ignore room_key (default_room_settings channel_name) db.room_settings in
    (ok_or (find room_key channel_name table) no_rows, record db { room_settings = table })

unfoldable pub save_room_settings : RoomSettings → Db → Db
save_room_settings settings db = record db {
  room_settings =
      upsert room_key
        (λ r. record r {
          default_ttl = settings.default_ttl;
          retention_days = settings.retention_days;
          persistence_enabled = settings.persistence_enabled;
          invite_only = settings.invite_only;
          notifications_enabled = settings.notifications_enabled;
        })
        settings db.room_settings;
  saved_groups =
      update_where (λ g. g.channel_name == settings.channel_name)
        (λ g. record g {
          default_ttl = settings.default_ttl;
          retention_days = settings.retention_days;
          persistence_enabled = settings.persistence_enabled;
          invite_only = settings.invite_only;
          notifications_enabled = settings.notifications_enabled;
        })
        db.saved_groups;
}

unfoldable pub get_storage_settings : Db → Result StorageSettings
get_storage_settings db = ok_or db.storage_settings no_rows

unfoldable pub save_storage_settings : StorageSettings → Db → Db
save_storage_settings settings db = record db { storage_settings = some settings }
