-- ===== src/Desk/Config.antt =====
-- The configuration of the desktop back end (alterchat-ui/src-tauri/src/lib.rs). The time of a run of
-- saves is one argument.
pub mod RoundTrip
use Prim.Native.Char.{code}
use alter_chat.Base.{
  ℕ, String, Bool, true, false, ◌&&◌, ◌||◌, Option, none, some, List, [], ◌∷◌, leb, eqb,
  if◌then◌else◌,
}
use mathlib.Core.Option
use alter_chat.Base.Equality.{◌==◌, string_eq}
use alter_chat.Base.Result.{ok, err}
use alter_chat.Base.Action.{Action, lift, modify, ◌>>=◌, ◌>>◌}
use alter_chat.Int.{ℤ, pos}
use alter_chat.Db.Json.{Json}
use alter_chat.Db.Rows.{StorageSettings}
use alter_chat.Db.Schema.{Db, default_storage_settings}
use alter_chat.Db.Settings.{load_setting, save_setting, get_storage_settings, save_storage_settings}
use alter_chat.Desk.Decimal.{print_i64, parse_i64}

pub record FullConfig : Type 0 where
  pub nick : String
  pub offline_pubkey : Option String
  pub bootstrap_ip : String
  pub bootstrap_addrs : List String
  pub tor_enabled : Bool
  pub proxy_mode : String
  pub proxy_addr : String
  pub mdns_enabled : Bool
  pub dht_server_mode : Bool
  pub relay_enabled : Bool
  pub transport_preference : String
  pub relay_fallback_enabled : Bool
  pub publish_capabilities : Bool
  pub cover_traffic : Bool
  pub msg_delay : Bool
  pub local_notifications : Bool
  pub unknown_peer_policy : String
  pub min_trust_dm : ℤ
  pub min_trust_file : ℤ
  pub min_trust_invite : ℤ
  pub default_ttl : Option ℤ
  pub persistence_enabled : Bool
  pub invite_only_default : Bool
  pub proof_of_work_enabled : Bool
  pub rate_limit_per_minute : ℤ
  pub storage_node_enabled : Bool
  pub storage_quota_mb : ℤ
  pub storage_retention_days : ℤ
  pub sfu_threshold : ℤ
  pub preferred_sfu_peer : String
  pub accept_relay : Bool
  pub experimental_media_e2ee : Bool

-- `load_setting(..).unwrap_or(None).unwrap_or_else(default)`
unfoldable pub setting_text : String → String → Db → String
setting_text key default db = Option.get_or (load_setting key db) default

unfoldable pub setting_bool : String → Bool → Db → Bool
setting_bool key default db =
    Option.get_or (Option.map (λ v. v == "true") (load_setting key db)) default

unfoldable pub setting_i64 : String → ℤ → Db → ℤ
setting_i64 key default db = Option.get_or (Option.bind (load_setting key db) parse_i64) default

unfoldable pub setting_opt_i64 : String → Db → Option ℤ
setting_opt_i64 key db =
    Option.bind (load_setting key db) (λ v. if v == "" then none else parse_i64 v)

-- `char::is_whitespace`
abbrev is_whitespace : ℕ → Bool
is_whitespace c =
    (leb 9 c && leb c 13)
    || (eqb c 32
        || (eqb c 0x85
            || (eqb c 0xA0
                || (eqb c 0x1680
                    || ((leb 0x2000 c && leb c 0x200A)
                        || ((leb 0x2028 c && leb c 0x2029)
                            || (eqb c 0x202F || (eqb c 0x205F || eqb c 0x3000))))))))

-- `trim().is_empty()`
unfoldable pub is_blank : String → Bool
is_blank String.[] = true
is_blank (String.◌∷◌ c s) = is_whitespace (code c) && is_blank s

unfoldable pub load_bootstrap_addrs : Json (List String) → Db → List String
load_bootstrap_addrs J db =
    let bootstrap_ip = setting_text "bootstrap_ip" "" db in
    let fallback = if is_blank bootstrap_ip then [] else bootstrap_ip ∷ [] in
    elim (load_setting "bootstrap_addrs" db) [
      | none ↦ fallback
      | some v ↦ elim (J.from_str v) [ ok addrs ↦ addrs | err e ↦ fallback ]
    ]

-- The settings of the storage node, or the defaults of the configuration, which are the same as
-- those of the table's columns.
unfoldable pub storage : Db → StorageSettings
storage db = elim (get_storage_settings db) [ ok s ↦ s | err e ↦ default_storage_settings ]

unfoldable pub load_full_config : Json (List String) → Db → FullConfig
load_full_config J db = record {
  nick = setting_text "nick" "" db;
  offline_pubkey = none;
  bootstrap_ip = setting_text "bootstrap_ip" "" db;
  bootstrap_addrs = load_bootstrap_addrs J db;
  tor_enabled = setting_bool "tor_enabled" false db;
  proxy_mode = setting_text "proxy_mode" "none" db;
  proxy_addr = setting_text "proxy_addr" "" db;
  mdns_enabled = setting_bool "mdns_enabled" true db;
  dht_server_mode = setting_bool "dht_server_mode" false db;
  relay_enabled = setting_bool "relay_enabled" false db;
  transport_preference = setting_text "transport_preference" "tcp" db;
  relay_fallback_enabled = setting_bool "relay_fallback_enabled" false db;
  publish_capabilities = setting_bool "publish_capabilities" true db;
  cover_traffic = setting_bool "cover_traffic" false db;
  msg_delay = setting_bool "msg_delay" true db;
  local_notifications = setting_bool "local_notifications" true db;
  unknown_peer_policy = setting_text "unknown_peer_policy" "request-only" db;
  min_trust_dm = setting_i64 "min_trust_dm" (pos 0) db;
  min_trust_file = setting_i64 "min_trust_file" (pos 0) db;
  min_trust_invite = setting_i64 "min_trust_invite" (pos 0) db;
  default_ttl = setting_opt_i64 "default_ttl" db;
  persistence_enabled = setting_bool "persistence_enabled" true db;
  invite_only_default = setting_bool "invite_only_default" false db;
  proof_of_work_enabled = setting_bool "proof_of_work_enabled" false db;
  rate_limit_per_minute = setting_i64 "rate_limit_per_minute" (pos 30) db;
  storage_node_enabled = (storage db).storage_node_enabled;
  storage_quota_mb = (storage db).quota_mb;
  storage_retention_days = (storage db).retention_days;
  sfu_threshold = setting_i64 "sfu_threshold" (pos 6) db;
  preferred_sfu_peer = setting_text "preferred_sfu_peer" "" db;
  accept_relay = setting_bool "accept_relay" false db;
  experimental_media_e2ee = setting_bool "experimental_media_e2ee" false db;
}

abbrev pub bool_text : Bool → String
bool_text b = if b then "true" else "false"

-- The calls of `save_setting`, one after another.
unfoldable pub save_settings : ℤ → List (String × String) → Db → Db
save_settings now [] db = db
save_settings now ((key, value) ∷ rest) db = save_settings now rest (save_setting now key value db)

-- The keys and texts that are saved before the addresses are printed, after that, and after the
-- settings of the storage node.
unfoldable pub first_settings : FullConfig → List (String × String)
first_settings config = ("nick", config.nick) ∷ ("bootstrap_ip", config.bootstrap_ip) ∷ []

unfoldable pub middle_settings : FullConfig → String → List (String × String)
middle_settings config addrs =
    ("bootstrap_addrs", addrs)
    ∷ ("tor_enabled", bool_text config.tor_enabled)
    ∷ ("proxy_mode", config.proxy_mode)
    ∷ ("proxy_addr", config.proxy_addr)
    ∷ ("mdns_enabled", bool_text config.mdns_enabled)
    ∷ ("dht_server_mode", bool_text config.dht_server_mode)
    ∷ ("relay_enabled", bool_text config.relay_enabled)
    ∷ ("transport_preference", config.transport_preference)
    ∷ ("relay_fallback_enabled", bool_text config.relay_fallback_enabled)
    ∷ ("publish_capabilities", bool_text config.publish_capabilities)
    ∷ ("cover_traffic", bool_text config.cover_traffic)
    ∷ ("msg_delay", bool_text config.msg_delay)
    ∷ ("local_notifications", bool_text config.local_notifications)
    ∷ ("unknown_peer_policy", config.unknown_peer_policy)
    ∷ ("min_trust_dm", print_i64 config.min_trust_dm)
    ∷ ("min_trust_file", print_i64 config.min_trust_file)
    ∷ ("min_trust_invite", print_i64 config.min_trust_invite)
    ∷ ("default_ttl", Option.get_or (Option.map print_i64 config.default_ttl) "")
    ∷ ("persistence_enabled", bool_text config.persistence_enabled)
    ∷ ("invite_only_default", bool_text config.invite_only_default)
    ∷ ("proof_of_work_enabled", bool_text config.proof_of_work_enabled)
    ∷ ("rate_limit_per_minute", print_i64 config.rate_limit_per_minute)
    ∷ []

unfoldable pub last_settings : FullConfig → List (String × String)
last_settings config =
    ("sfu_threshold", print_i64 config.sfu_threshold)
    ∷ ("preferred_sfu_peer", config.preferred_sfu_peer)
    ∷ ("accept_relay", bool_text config.accept_relay)
    ∷ ("experimental_media_e2ee", bool_text config.experimental_media_e2ee)
    ∷ []

abbrev pub storage_of : FullConfig → StorageSettings
storage_of config = record {
  storage_node_enabled = config.storage_node_enabled;
  quota_mb = config.storage_quota_mb;
  retention_days = config.storage_retention_days;
}

unfoldable pub save_full_config_to_db : Json (List String) → ℤ → FullConfig → Action Db (Unit {0})
save_full_config_to_db J now config = do
  modify (save_settings now (first_settings config))
  addrs ← lift (J.to_string config.bootstrap_addrs)
  modify (save_settings now (middle_settings config addrs))
  modify (save_storage_settings (storage_of config))
  modify (save_settings now (last_settings config))
