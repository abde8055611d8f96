-- ===== src/Db/Steps.antt =====
-- The operations of the database that write (alterchat-ui/src-tauri/src/db.rs) as the steps of a
-- transition system, with every argument that a caller can give. `seed_default_roles` is a sequence
-- of them.
use alter_chat.Base.{ℕ, String, Bool, Option, List}
use alter_chat.Base.Bytes.{Bytes}
use alter_chat.Int.{ℤ}
use alter_chat.Db.Json.{Json}
use alter_chat.Db.Rows.{PeerSettings, RoomSettings, StorageSettings}
use alter_chat.Db.Settings.{
  save_setting, get_peer_settings, save_peer_settings, get_room_settings, save_room_settings,
  save_storage_settings,
}
use alter_chat.Db.Schema.{Db, run_migrations}
use alter_chat.Db.Rooms.{
  save_room, save_group, remove_group, save_invite, increment_invite_use, revoke_invite, save_role,
  save_permission_grant, save_trust_edge, mark_invite_revoked,
}
use alter_chat.Db.Messages.{
  index_room_message, add_friend, remove_friend, save_private_message, save_ratchet_state,
  get_private_messages, cleanup_room_search,
}
use alter_chat.Db.Nodes.{
  save_capability, save_file_manifest, save_stored_chunk, delete_stored_chunk, save_plugin_manifest,
  save_known_peer, cleanup_old_peers, save_prekey_bundle, mark_opk_used,
}

pub data Step : Db → Db → Type 0 where
  calls_run_migrations : (db : Db) → Step db (run_migrations db).1
  calls_save_room :
      (channel : String) (blob : Bytes) (db : Db) → Step db (save_room channel blob db)
  calls_index_room_message :
      (room_id : String) (sender : String) (text : String) (timestamp : ℤ) (db : Db)
      → Step db (index_room_message room_id sender text timestamp db)
  calls_save_setting :
      (now : ℤ) (key : String) (value : String) (db : Db) → Step db (save_setting now key value db)
  calls_add_friend :
      (peer_id : String) (nickname : String) (offline_pubkey : Option String) (db : Db)
      → Step db (add_friend peer_id nickname offline_pubkey db)
  calls_remove_friend : (peer_id : String) (db : Db) → Step db (remove_friend peer_id db)
  calls_save_private_message :
      (peer_id : String) (sender_is_me : Bool) (text : String) (timestamp : ℤ) (ttl : Option ℤ)
      (db : Db)
      → Step db (save_private_message peer_id sender_is_me text timestamp ttl db)
  calls_save_ratchet_state :
      (now : ℤ) (peer_id : String) (state_blob : Bytes) (db : Db)
      → Step db (save_ratchet_state now peer_id state_blob db)
  calls_get_private_messages :
      (now : ℤ) (peer_id : String) (db : Db) → Step db (get_private_messages now peer_id db).1
  calls_save_group :
      (channel_name : String) (password : Option String) (db : Db)
      → Step db (save_group channel_name password db)
  calls_remove_group : (channel_name : String) (db : Db) → Step db (remove_group channel_name db)
  calls_get_peer_settings : (peer_id : String) (db : Db) → Step db (get_peer_settings peer_id db).1
  calls_save_peer_settings :
      (settings : PeerSettings) (db : Db) → Step db (save_peer_settings settings db)
  calls_get_room_settings :
      (channel_name : String) (db : Db) → Step db (get_room_settings channel_name db).1
  calls_save_room_settings :
      (settings : RoomSettings) (db : Db) → Step db (save_room_settings settings db)
  calls_save_storage_settings :
      (settings : StorageSettings) (db : Db) → Step db (save_storage_settings settings db)
  calls_save_invite :
      (now : ℤ) (invite_id : String) (room_id : String) (token_json : String) (db : Db)
      → Step db (save_invite now invite_id room_id token_json db)
  calls_increment_invite_use :
      (invite_id : String) (db : Db) → Step db (increment_invite_use invite_id db)
  calls_revoke_invite : (invite_id : String) (db : Db) → Step db (revoke_invite invite_id db)
  calls_save_role :
      (room_id : String) (role_id : String) (role_json : String) (db : Db)
      → Step db (save_role room_id role_id role_json db)
  calls_save_permission_grant :
      (room_id : String) (subject_peer_id : String) (role_id : String) (grant_json : String)
      (db : Db)
      → Step db (save_permission_grant room_id subject_peer_id role_id grant_json db)
  calls_save_trust_edge :
      (from_peer_id : String) (to_peer_id : String) (edge_json : String) (db : Db)
      → Step db (save_trust_edge from_peer_id to_peer_id edge_json db)
  calls_save_capability :
      (J : Json (List String)) (now : ℤ) (peer_id : String)
      (storage_node relay_node dht_server media_relay : Bool) (capacity_score : ℕ)
      (protocol_versions : List String) (db : Db)
      → Step db
          (save_capability J now peer_id storage_node relay_node dht_server media_relay
            capacity_score protocol_versions db).1
  calls_save_file_manifest :
      (now : ℤ) (content_hash : String) (manifest_json : String) (db : Db)
      → Step db (save_file_manifest now content_hash manifest_json db)
  calls_save_stored_chunk :
      (chunk_hash : String) (content_hash : String) (chunk_index : ℕ) (path : String) (size : ℕ)
      (expires_at : Option ℤ) (db : Db)
      → Step db (save_stored_chunk chunk_hash content_hash chunk_index path size expires_at db)
  calls_delete_stored_chunk :
      (chunk_hash : String) (db : Db) → Step db (delete_stored_chunk chunk_hash db)
  calls_cleanup_room_search :
      (room_id : String) (older_than_ms : ℤ) (db : Db)
      → Step db (cleanup_room_search room_id older_than_ms db)
  calls_save_plugin_manifest :
      (plugin_id : String) (manifest_json : String) (enabled : Bool) (granted : String) (db : Db)
      → Step db (save_plugin_manifest plugin_id manifest_json enabled granted db)
  calls_save_known_peer :
      (peer_id : String) (multiaddr : String) (last_seen : ℤ) (db : Db)
      → Step db (save_known_peer peer_id multiaddr last_seen db)
  calls_cleanup_old_peers :
      (now : ℤ) (max_age_ms : ℤ) (db : Db) → Step db (cleanup_old_peers now max_age_ms db)
  calls_save_prekey_bundle :
      (now : ℤ) (peer_id : String) (bundle_json : String) (db : Db)
      → Step db (save_prekey_bundle now peer_id bundle_json db)
  calls_mark_invite_revoked :
      (now : ℤ) (invite_id : String) (revoked_by : String) (db : Db)
      → Step db (mark_invite_revoked now invite_id revoked_by db)
  calls_mark_opk_used :
      (now : ℤ) (opk_id : String) (peer_id : String) (db : Db)
      → Step db (mark_opk_used now opk_id peer_id db).1

pub data Reach (db : Db) : Db → Type 0 where
  start : Reach db db
  next : {mid db' : Db} → Reach db mid → Step mid db' → Reach db db'
