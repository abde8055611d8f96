-- ===== src/Desk/Preferences.antt =====
-- The commands on settings (alterchat-ui/src-tauri/src/commands/settings.rs). What the event loop is
-- to do is the result of a command that only asks it; the public key that the application's state has
-- is an argument, and so are a salt and a nonce. serde_json, hexadecimal digits and Argon2 are
-- parameters.
pub mod Restore
mod Tests
use alter_chat.Base.{ℕ, String, Bool, true, false, Option, none, List, [], ◌∷◌, if◌then◌else◌}
use mathlib.Core.Option
use alter_chat.Base.Bytes.{Bytes}
use alter_chat.Base.Result.{Result, ok_or}
use alter_chat.Base.Action.{Action, pure, lift, gets, modify, ◌>>=◌, ◌>>◌}
use alter_chat.Int.{ℤ, pos}
use alter_chat.Vault.{encrypt_file_data, decrypt_file_data}
use alter_chat.Db.Json.{Json}
use alter_chat.Db.Rows.{Friend, SavedGroup}
use alter_chat.Db.Schema.{Db}
use alter_chat.Db.Lists.{export_settings}
use alter_chat.Db.Messages.{get_friends}
use alter_chat.Db.Rooms.{get_saved_groups}
use alter_chat.Desk.Config.{
  FullConfig, is_blank, load_full_config, save_full_config_to_db, save_settings,
}
use alter_chat.Desk.Env.{Env}
use alter_chat.Desk.Session.{AppState, connect}

-- The arguments of `save_settings`.
pub record SettingsForm : Type 0 where
  pub nick : String
  pub bootstrap_ip : String
  pub bootstrap_addrs : Option (List String)
  pub tor_enabled : Bool
  pub proxy_mode : String
  pub proxy_addr : String
  pub mdns_enabled : Option Bool
  pub dht_server_mode : Option Bool
  pub relay_enabled : Option Bool
  pub transport_preference : Option String
  pub relay_fallback_enabled : Option Bool
  pub publish_capabilities : Option Bool
  pub cover_traffic : Bool
  pub msg_delay : Bool
  pub local_notifications : Option Bool
  pub unknown_peer_policy : Option String
  pub min_trust_dm : Option ℤ
  pub min_trust_file : Option ℤ
  pub min_trust_invite : Option ℤ
  pub default_ttl : Option ℤ
  pub persistence_enabled : Option Bool
  pub invite_only_default : Option Bool
  pub proof_of_work_enabled : Option Bool
  pub rate_limit_per_minute : Option ℤ
  pub storage_node_enabled : Option Bool
  pub storage_quota_mb : Option ℤ
  pub storage_retention_days : Option ℤ
  pub sfu_threshold : Option ℤ
  pub preferred_sfu_peer : Option String
  pub accept_relay : Option Bool
  pub experimental_media_e2ee : Option Bool

-- The configuration that `save_settings` sends to the event loop.
unfoldable pub config_of_form : SettingsForm → FullConfig
config_of_form form = record {
  nick = form.nick;
  offline_pubkey = none;
  bootstrap_ip = form.bootstrap_ip;
  bootstrap_addrs =
      Option.get_or form.bootstrap_addrs
        (if is_blank form.bootstrap_ip then [] else form.bootstrap_ip ∷ []);
  tor_enabled = form.tor_enabled;
  proxy_mode = form.proxy_mode;
  proxy_addr = form.proxy_addr;
  mdns_enabled = Option.get_or form.mdns_enabled true;
  dht_server_mode = Option.get_or form.dht_server_mode false;
  relay_enabled = Option.get_or form.relay_enabled false;
  transport_preference = Option.get_or form.transport_preference "tcp";
  relay_fallback_enabled = Option.get_or form.relay_fallback_enabled false;
  publish_capabilities = Option.get_or form.publish_capabilities true;
  cover_traffic = form.cover_traffic;
  msg_delay = form.msg_delay;
  local_notifications = Option.get_or form.local_notifications true;
  unknown_peer_policy = Option.get_or form.unknown_peer_policy "request-only";
  min_trust_dm = Option.get_or form.min_trust_dm (pos 0);
  min_trust_file = Option.get_or form.min_trust_file (pos 0);
  min_trust_invite = Option.get_or form.min_trust_invite (pos 0);
  default_ttl = form.default_ttl;
  persistence_enabled = Option.get_or form.persistence_enabled true;
  invite_only_default = Option.get_or form.invite_only_default false;
  proof_of_work_enabled = Option.get_or form.proof_of_work_enabled false;
  rate_limit_per_minute = Option.get_or form.rate_limit_per_minute (pos 30);
  storage_node_enabled = Option.get_or form.storage_node_enabled false;
  storage_quota_mb = Option.get_or form.storage_quota_mb (pos 512);
  storage_retention_days = Option.get_or form.storage_retention_days (pos 7);
  sfu_threshold = Option.get_or form.sfu_threshold (pos 6);
  preferred_sfu_peer = Option.get_or form.preferred_sfu_peer "";
  accept_relay = Option.get_or form.accept_relay false;
  experimental_media_e2ee = Option.get_or form.experimental_media_e2ee false;
}

pub record ProfileConfigExport : Type 0 where
  pub app : FullConfig
  pub raw_settings : List (String × String)

pub record VaultExport : Type 0 where
  pub settings : List (String × String)
  pub friends : List Friend
  pub groups : List SavedGroup
  pub version : ℕ

-- The crate `hex`.
pub record Hex : Type 0 where
  pub encode : Bytes → String
  pub decode : String → Result Bytes

-- serde_json on a vault: all of it is written, the settings are read.
pub record VaultJson : Type 0 where
  pub to_vec : VaultExport → Result Bytes
  pub from_slice : Bytes → Result (List (String × String))

module _ (E : Env) (J : Json (List String)) (now : ℤ) where
  -- The public key that the state has comes before what is stored, which has none.
  unfoldable pub get_settings : Option String → AppState → Action Db FullConfig
  get_settings offline_pubkey state = do
    connect E.S E.P state
    config ← gets (load_full_config J)
    pure (record config { offline_pubkey = offline_pubkey })

  unfoldable pub export_profile_config :
      (ProfileConfigExport → Result String) → Option String → AppState → Action Db String
  export_profile_config json offline_pubkey state = do
    config ← get_settings offline_pubkey state
    raw_settings ← gets export_settings
    lift (json (record { app = config; raw_settings = raw_settings }))

  unfoldable pub import_profile_config :
      (String → Result ProfileConfigExport) → String → AppState → Action Db (Unit {0})
  import_profile_config json words state = do
    exported ← lift (json words)
    connect E.S E.P state
    save_full_config_to_db J now exported.app

module _ (E : Env) (V : VaultJson) (H : Hex) (argon2 : Bytes → Bytes → Bytes) where
  unfoldable pub seal_vault : Bytes → Bytes → String → Action Db (Option String)
  seal_vault salt nonce password = do
    settings ← gets export_settings
    friends ← gets get_friends
    groups ← gets get_saved_groups
    plaintext ←
        lift (
          V.to_vec
            (record { settings = settings; friends = friends; groups = groups; version = 1 }))
    pure (Option.map H.encode (encrypt_file_data E.C argon2 salt nonce password plaintext))

  -- `none` in the result is the panic of a failed encryption.
  unfoldable pub export_vault_encrypted :
      Bytes → Bytes → String → AppState → Action Db (Option String)
  export_vault_encrypted salt nonce password state = do
    connect E.S E.P state
    seal_vault salt nonce password

  -- A vault that is not read leaves the database alone: it is opened at the end.
  unfoldable pub import_vault_encrypted : ℤ → String → String → AppState → Action Db (Unit {0})
  import_vault_encrypted now encrypted_hex password state = do
    path ← lift (ok_or state.db_path "Not logged in")
    key ← lift (ok_or state.db_key "Not logged in")
    bytes ← lift (H.decode encrypted_hex)
    plaintext ← lift (decrypt_file_data E.C argon2 password bytes)
    settings ← lift (V.from_slice plaintext)
    connect E.S E.P state
    modify (save_settings now settings)
