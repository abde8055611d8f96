-- ===== src/Db/Rows.antt =====
-- The tables of alterchat-ui/src-tauri/src/db.rs, a record for the rows of each. An INTEGER is an
-- unbounded integer, and a BOOLEAN is a Boolean.
use alter_chat.Base.Bytes.{Bytes}
use alter_chat.Base.{String, Bool, Option}
use alter_chat.Int.{ℤ}

pub record RoomRow : Type 0 where
  pub channel_name : String
  pub automerge_blob : Bytes

pub record SettingRow : Type 0 where
  pub key : String
  pub value : String

pub record AppSettingRow : Type 0 where
  pub key : String
  pub value : String
  pub updated_at : ℤ

pub record Friend : Type 0 where
  pub peer_id : String
  pub nickname : String
  pub offline_pubkey : Option String
  pub trust_level : ℤ
  pub blocked : Bool
  pub muted : Bool
  pub notes : Option String

pub record PrivateMessage : Type 0 where
  pub peer_id : String
  pub sender_is_me : Bool
  pub text : String
  pub timestamp : ℤ
  pub ttl : Option ℤ

pub record SavedGroup : Type 0 where
  pub channel_name : String
  pub password : Option String
  pub default_ttl : Option ℤ
  pub persistence_enabled : Bool
  pub invite_only : Bool
  pub notifications_enabled : Bool
  pub retention_days : Option ℤ

pub record PeerSettings : Type 0 where
  pub peer_id : String
  pub trust_level : ℤ
  pub blocked : Bool
  pub muted : Bool
  pub rate_limit_per_minute : ℤ
  pub proof_of_work_required : Bool

pub record RoomSettings : Type 0 where
  pub channel_name : String
  pub default_ttl : Option ℤ
  pub retention_days : Option ℤ
  pub persistence_enabled : Bool
  pub invite_only : Bool
  pub notifications_enabled : Bool

pub record RatchetRow : Type 0 where
  pub peer_id : String
  pub state_blob : Bytes
  pub updated_at : ℤ

pub record StorageSettings : Type 0 where
  pub storage_node_enabled : Bool
  pub quota_mb : ℤ
  pub retention_days : ℤ

pub record InviteRow : Type 0 where
  pub invite_id : String
  pub room_id : String
  pub token_json : String
  pub revoked : Bool
  pub uses : ℤ
  pub created_at : ℤ

pub record RoleRow : Type 0 where
  pub room_id : String
  pub role_id : String
  pub role_json : String

pub record GrantRow : Type 0 where
  pub room_id : String
  pub subject_peer_id : String
  pub role_id : String
  pub grant_json : String

pub record EdgeRow : Type 0 where
  pub from_peer_id : String
  pub to_peer_id : String
  pub edge_json : String

pub record CapabilityRow : Type 0 where
  pub peer_id : String
  pub storage_node : Bool
  pub relay_node : Bool
  pub dht_server : Bool
  pub media_relay : Bool
  pub capacity_score : ℤ
  pub protocol_versions_json : String
  pub updated_at : ℤ

pub record ManifestRow : Type 0 where
  pub content_hash : String
  pub manifest_json : String
  pub stored_at : ℤ

pub record ChunkRow : Type 0 where
  pub chunk_hash : String
  pub content_hash : String
  pub chunk_index : ℤ
  pub path : String
  pub size : ℤ
  pub expires_at : Option ℤ

pub record PluginRow : Type 0 where
  pub plugin_id : String
  pub manifest_json : String
  pub enabled : Bool
  pub granted_capabilities_json : String

pub record SearchRow : Type 0 where
  pub scope : String
  pub peer_id : String
  pub room_id : String
  pub sender : String
  pub text : String
  pub timestamp : ℤ

pub record KnownPeerRow : Type 0 where
  pub peer_id : String
  pub multiaddr : String
  pub last_seen : ℤ

pub record PreKeyRow : Type 0 where
  pub peer_id : String
  pub bundle_json : String
  pub fetched_at : ℤ

pub record RevokedRow : Type 0 where
  pub invite_id : String
  pub revoked_at : ℤ
  pub revoked_by : String

pub record UsedOpkRow : Type 0 where
  pub opk_id : String
  pub peer_id : String
  pub used_at : ℤ
