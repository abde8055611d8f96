-- ===== src/Plugin/Types.antt =====
-- The data of alterchat-core/src/plugin.rs.
use alter_chat.Base.{ℕ, String, Bool, List}
use alter_chat.Base.Bytes.{Bytes}
use alter_chat.Base.Equality.{Eq}
use alter_chat.Int.{ℤ}

pub data PluginCapability : Type 0 where
  read_messages : PluginCapability
  send_messages : PluginCapability
  file_access : PluginCapability
  network_access : PluginCapability
  storage_access : PluginCapability
  manage_rooms : PluginCapability
  clock : PluginCapability

capability_dec : Discrete PluginCapability
capability_dec = hlevel

instance unfoldable pub capability_eq : Eq PluginCapability
unfolding capability_dec
capability_eq = record { dec = capability_dec }

pub record PluginManifest : Type 0 where
  pub id : String
  pub name : String
  pub version : String
  pub author_peer_id : String
  pub author_public_key : Bytes
  pub entrypoint : String
  pub capabilities : List PluginCapability
  pub wasm_hash : Bytes
  pub signature : Bytes

pub record PluginPolicy : Type 0 where
  pub plugin_id : String
  pub enabled : Bool
  pub granted_capabilities : List PluginCapability

pub record PluginRunResult : Type 0 where
  pub output : ℤ
  pub fuel_remaining : ℕ
  pub log : List String
