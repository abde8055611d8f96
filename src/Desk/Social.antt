-- ===== src/Desk/Social.antt =====
-- The commands on peers, rooms, files and plugins that read or write the database
-- (social.rs, room.rs, storage.rs and plugin.rs of alterchat-ui/src-tauri/src/commands). serde_json is
-- a parameter. Errors of SQL are not modelled, but for a row that is not there.
use alter_chat.Base.{String, Bool, false, List, [], ◌∷◌}
use alter_chat.Base.Result.{Result, ok, err, map_ok}
use alter_chat.Base.Action.{Action, lift, gets, modify, ◌>>=◌, ◌>>◌}
use alter_chat.Int.{ℤ, pos, ◌+ℤ◌, i64}
use alter_chat.Sharding.{FileManifest}
use alter_chat.Plugin.Types.{PluginManifest, PluginCapability}
use alter_chat.Db.Json.{Json}
use alter_chat.Db.Rows.{Friend, SavedGroup, PrivateMessage, PeerSettings, RoomSettings}
use alter_chat.Db.Schema.{Db}
use alter_chat.Db.Settings
use alter_chat.Db.Messages
use alter_chat.Db.Rooms
use alter_chat.Db.Nodes
use alter_chat.Db.Nodes.{PeerCapability}
use alter_chat.Db.Lists.{StoredChunk, list_stored_chunks, list_plugin_manifests}
use alter_chat.Desk.Env.{Env}
use alter_chat.Desk.Session.{AppState, connect}
use alter_chat.Desk.Media.{cleanup_expired_storage}

-- A plugin as the windows know it.
pub record PluginRegistryEntry : Type 0 where
  pub manifest : PluginManifest
  pub enabled : Bool
  pub granted_capabilities : List PluginCapability

-- `.map(..).collect()`: the first error ends it.
unfoldable pub collect : {A B : Type 0} → (A → Result B) → List A → Result (List B)
collect f [] = ok []
collect f (x ∷ xs) = elim (f x) [
  | err e ↦ err e
  | ok y ↦ elim (collect f xs) [ err e ↦ err e | ok ys ↦ ok (y ∷ ys) ]
]

unfoldable pub plugin_entry :
    Json PluginManifest
    → Json (List PluginCapability)
    → String × Bool × String
    → Result PluginRegistryEntry
plugin_entry M K (manifest_json, enabled, caps_json) = elim (M.from_str manifest_json) [
  | err e ↦ err e
  | ok manifest ↦
      map_ok
        (λ caps. record { manifest = manifest; enabled = enabled; granted_capabilities = caps })
        (K.from_str caps_json)
]

-- What stands for a peer's settings that are not found.
abbrev pub unknown_peer : String → PeerSettings
unknown_peer peer_id = record {
  peer_id = peer_id;
  trust_level = pos 0;
  blocked = false;
  muted = false;
  rate_limit_per_minute = pos 0;
  proof_of_work_required = false;
}

unfoldable pub found_or_unknown : String → Action Db PeerSettings
found_or_unknown peer_id db =
    let (found, after) = Settings.get_peer_settings peer_id db in
    (ok (elim found [ ok s ↦ s | err e ↦ unknown_peer peer_id ]), after)

module _ (E : Env) (state : AppState) where
  unfoldable pub list_friends : Action Db (List Friend)
  list_friends = do connect E.S E.P state; gets Messages.get_friends

  -- The sum wraps at 64 bits.
  unfoldable pub endorse_peer : String → ℤ → Action Db (Unit {0})
  endorse_peer peer_id score = do
    connect E.S E.P state
    settings ← found_or_unknown peer_id
    modify (
        Settings.save_peer_settings
          (record settings { trust_level = i64 (settings.trust_level +ℤ score) }))

  unfoldable pub list_private_messages : ℤ → String → Action Db (List PrivateMessage)
  list_private_messages now peer_id = do
    connect E.S E.P state
    λ db. let (found, after) = Messages.get_private_messages now peer_id db in (ok found, after)

  unfoldable pub peer_settings : String → Action Db PeerSettings
  peer_settings peer_id = do connect E.S E.P state; Settings.get_peer_settings peer_id

  unfoldable pub set_peer_settings : PeerSettings → Action Db (Unit {0})
  set_peer_settings settings = do
    connect E.S E.P state
    modify (Settings.save_peer_settings settings)

  unfoldable pub list_saved_groups : Action Db (List SavedGroup)
  list_saved_groups = do connect E.S E.P state; gets Rooms.get_saved_groups

  unfoldable pub room_settings : String → Action Db RoomSettings
  room_settings channel_name = do connect E.S E.P state; Settings.get_room_settings channel_name

  unfoldable pub set_room_settings : RoomSettings → Action Db (Unit {0})
  set_room_settings settings = do
    connect E.S E.P state
    modify (Settings.save_room_settings settings)

  unfoldable pub list_manifests : Json FileManifest → Action Db (List FileManifest)
  list_manifests J = do
    connect E.S E.P state
    texts ← gets Nodes.list_file_manifests
    lift (collect J.from_str texts)

  unfoldable pub list_chunks : ℤ → Action Db (List StoredChunk)
  list_chunks now = do
    connect E.S E.P state
    modify (λ db. (cleanup_expired_storage now db).1)
    gets list_stored_chunks

  unfoldable pub list_capabilities : Json (List String) → ℤ → Action Db (List PeerCapability)
  list_capabilities J now = do
    connect E.S E.P state
    gets (Nodes.list_active_capabilities J now (pos 600_000))

  unfoldable pub save_plugin :
      Json PluginManifest
      → Json (List PluginCapability)
      → PluginRegistryEntry
      → Action Db (Unit {0})
  save_plugin M K entry = do
    connect E.S E.P state
    manifest_json ← lift (M.to_string entry.manifest)
    caps_json ← lift (K.to_string entry.granted_capabilities)
    modify (Nodes.save_plugin_manifest entry.manifest.id manifest_json entry.enabled caps_json)

  unfoldable pub list_plugins :
      Json PluginManifest → Json (List PluginCapability) → Action Db (List PluginRegistryEntry)
  list_plugins M K = do
    connect E.S E.P state
    rows ← gets list_plugin_manifests
    lift (collect (plugin_entry M K) rows)
