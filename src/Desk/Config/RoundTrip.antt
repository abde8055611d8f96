-- ===== src/Desk/Config/RoundTrip.antt =====
-- A configuration that is saved is loaded again (alterchat-ui/src-tauri/src/lib.rs).
use alter_chat.Int.{IsI64}
use alter_chat.Base.{
  String, Bool, true, false, Option, none, some, List, [], ◌∷◌, ◌≡◌, refl, ap, ◌∙◌, arith, inl, inr,
  Bool-cases, if◌then◌else◌,
}
use mathlib.Core.Option
use alter_chat.Base.Equality.{==_sound, ◌==◌, string_eq, bytes_eq}
use alter_chat.Base.Result.{ok, err, ok_or}
use alter_chat.Int.{ℤ, pos}
use alter_chat.Db.Json.{Json, JsonIsLawful}
use alter_chat.Db.Table.Laws.{find-upsert}
use alter_chat.Db.Schema.{Db, default_storage_settings}
use alter_chat.Db.Rows.{StorageSettings}
use alter_chat.Db.Settings.{
  no_rows, setting_key, app_setting_key, load_setting, save_setting, get_storage_settings,
  save_storage_settings,
}
use alter_chat.Desk.Decimal.{print_i64, parse_i64}
use alter_chat.Desk.Decimal.RoundTrip.{parse_i64-print_i64}
use alter_chat.Desk.Config.{
  FullConfig, setting_text, setting_bool, setting_i64, setting_opt_i64, load_bootstrap_addrs,
  storage, storage_of, load_full_config, bool_text, save_settings, first_settings, middle_settings,
  last_settings, save_full_config_to_db,
}

-- A setting that is saved is the one that is loaded, and the other settings are as they were.
pub load_setting-save_setting :
    (now : ℤ) (key value k : String) (db : Db)
    → load_setting k (save_setting now key value db)
      ≡ (if key == k then some value else load_setting k db)
unfolding load_setting save_setting
load_setting-save_setting now key value k db = ground (
  arith,
  find-upsert app_setting_key (λ r. record r { value = value; updated_at = now })
      (record { key = key; value = value; updated_at = now }) db.app_settings k (λ x. refl),
  find-upsert setting_key (λ r. record r { value = value }) (record { key = key; value = value })
      db.settings k (λ x. refl),
)

-- The last of the texts that go to a key.
unfoldable last_text : String → List (String × String) → Option String → Option String
last_text k [] before = before
last_text k ((key, value) ∷ rest) before =
    last_text k rest (if key == k then some value else before)

load_setting-save_settings :
    (now : ℤ) (k : String) (settings : List (String × String)) (db : Db)
    → load_setting k (save_settings now settings db) ≡ last_text k settings (load_setting k db)
unfolding save_settings last_text
load_setting-save_settings now k [] db = refl
load_setting-save_settings now k ((key, value) ∷ rest) db =
    load_setting-save_settings now k rest (save_setting now key value db)
    ∙ ap (last_text k rest) (load_setting-save_setting now key value k db)

load_setting-save_storage_settings :
    (k : String) (config : FullConfig) (db : Db)
    → load_setting k (save_storage_settings (storage_of config) db) ≡ load_setting k db
unfolding load_setting save_storage_settings
load_setting-save_storage_settings k config db = refl

save_settings_storage :
    (now : ℤ) (settings : List (String × String)) (db : Db)
    → (save_settings now settings db).storage_settings ≡ db.storage_settings
unfolding save_settings save_setting
save_settings_storage now [] db = refl
save_settings_storage now ((key, value) ∷ rest) db =
    save_settings_storage now rest (save_setting now key value db)

bool_text_eq : (b : Bool) → (bool_text b == "true") ≡ b
unfolding string_eq
bool_text_eq true = refl
bool_text_eq false = refl

-- The numbers that go through a text are of 64 bits.
pub record IsInRange (config : FullConfig) : Type 0 where
  pub min_trust_dm : IsI64 config.min_trust_dm
  pub min_trust_file : IsI64 config.min_trust_file
  pub min_trust_invite : IsI64 config.min_trust_invite
  pub rate_limit_per_minute : IsI64 config.rate_limit_per_minute
  pub sfu_threshold : IsI64 config.sfu_threshold
  pub default_ttl : (z : ℤ) → config.default_ttl ≡ some z → IsI64 z

abbrev ttl_of_text : String → Option ℤ
ttl_of_text v = if v == "" then none else parse_i64 v

ttl_of_text_print :
    (ttl : Option ℤ)
    → ((z : ℤ) → ttl ≡ some z → IsI64 z)
    → ttl_of_text (Option.get_or (Option.map print_i64 ttl) "") ≡ ttl
unfolding string_eq parse_i64
ttl_of_text_print none h = refl
ttl_of_text_print (some z) h = elim (Bool-cases (print_i64 z == "")) [
  | inl empty ↦ ground (
    arith,
    ap parse_i64 (==_sound {a = print_i64 z} {b = ""} empty),
    parse_i64-print_i64 z (h z refl),
  )
  | inr full ↦ ground (arith, full, parse_i64-print_i64 z (h z refl))
]

module _ (J : Json (List String)) (L : JsonIsLawful (List String) J) (now : ℤ) (config : FullConfig)
    (addrs : String) (db : Db) where
  -- The database after the whole run.
  saved : Db
  saved = save_settings now (last_settings config) (
      save_storage_settings (storage_of config) (
        save_settings now (middle_settings config addrs)
          (save_settings now (first_settings config) db)))

  saved_text : String → Option String
  saved_text k = last_text k (last_settings config) (
      last_text k (middle_settings config addrs)
        (last_text k (first_settings config) (load_setting k db)))

  load_setting-saved : (k : String) → load_setting k saved ≡ saved_text k
  unfolding saved saved_text
  load_setting-saved k =
      load_setting-save_settings now k (last_settings config) _
      ∙ ap (last_text k (last_settings config)) (
          load_setting-save_storage_settings k config _
          ∙ load_setting-save_settings now k (middle_settings config addrs) _
          ∙ ap (last_text k (middle_settings config addrs))
              (load_setting-save_settings now k (first_settings config) db))

  text_field : (k d v : String) → saved_text k ≡ some v → setting_text k d saved ≡ v
  unfolding setting_text
  text_field k d v e = ap (λ o. Option.get_or o d) (load_setting-saved k ∙ e)

  bool_field :
      (k : String) (d b : Bool) → saved_text k ≡ some (bool_text b) → setting_bool k d saved ≡ b
  unfolding setting_bool
  bool_field k d b e =
      ap (λ o. Option.get_or (Option.map (λ v. v == "true") o) d) (load_setting-saved k ∙ e)
      ∙ bool_text_eq b

  number_field :
      (k : String) (d z : ℤ)
      → IsI64 z
      → saved_text k ≡ some (print_i64 z)
      → setting_i64 k d saved ≡ z
  unfolding setting_i64 Option.bind
  number_field k d z h e =
      ap (λ o. Option.get_or (Option.bind o parse_i64) d) (load_setting-saved k ∙ e)
      ∙ ap (λ o. Option.get_or o d) (parse_i64-print_i64 z h)

  default_ttl_field :
      ((z : ℤ) → config.default_ttl ≡ some z → IsI64 z)
      → saved_text "default_ttl" ≡ some (Option.get_or (Option.map print_i64 config.default_ttl) "")
      → setting_opt_i64 "default_ttl" saved ≡ config.default_ttl
  unfolding setting_opt_i64 Option.bind
  default_ttl_field h e =
      ap (λ o. Option.bind o ttl_of_text) (load_setting-saved "default_ttl" ∙ e)
      ∙ ttl_of_text_print config.default_ttl h

  addrs_field :
      J.to_string config.bootstrap_addrs ≡ ok addrs
      → saved_text "bootstrap_addrs" ≡ some addrs
      → load_bootstrap_addrs J saved ≡ config.bootstrap_addrs
  unfolding load_bootstrap_addrs
  addrs_field printed e = ground (
    arith,
    load_setting-saved "bootstrap_addrs",
    e,
    L.from_str-to_string config.bootstrap_addrs printed,
  )

  storage-saved : storage saved ≡ storage_of config
  unfolding storage saved get_storage_settings save_storage_settings
  storage-saved =
      ap
        (λ (o : Option StorageSettings).
          elim (ok_or {A = StorageSettings} o no_rows) as (λ _. StorageSettings) [
            | ok s ↦ s
            | err e ↦ default_storage_settings
          ])
        (save_settings_storage now (last_settings config) _)

  -- What is loaded from the database after the run.
  load_full_config-saved :
      IsInRange config
      → J.to_string config.bootstrap_addrs ≡ ok addrs
      → load_full_config J saved ≡ record config { offline_pubkey = none }
  unfolding load_full_config saved_text last_text last_settings middle_settings first_settings
      string_eq
  load_full_config-saved r printed = λ i. record {
    nick = text_field "nick" "" config.nick refl i;
    offline_pubkey = none;
    bootstrap_ip = text_field "bootstrap_ip" "" config.bootstrap_ip refl i;
    bootstrap_addrs = addrs_field printed refl i;
    tor_enabled = bool_field "tor_enabled" false config.tor_enabled refl i;
    proxy_mode = text_field "proxy_mode" "none" config.proxy_mode refl i;
    proxy_addr = text_field "proxy_addr" "" config.proxy_addr refl i;
    mdns_enabled = bool_field "mdns_enabled" true config.mdns_enabled refl i;
    dht_server_mode = bool_field "dht_server_mode" false config.dht_server_mode refl i;
    relay_enabled = bool_field "relay_enabled" false config.relay_enabled refl i;
    transport_preference =
        text_field "transport_preference" "tcp" config.transport_preference refl i;
    relay_fallback_enabled =
        bool_field "relay_fallback_enabled" false config.relay_fallback_enabled refl i;
    publish_capabilities =
        bool_field "publish_capabilities" true config.publish_capabilities refl i;
    cover_traffic = bool_field "cover_traffic" false config.cover_traffic refl i;
    msg_delay = bool_field "msg_delay" true config.msg_delay refl i;
    local_notifications = bool_field "local_notifications" true config.local_notifications refl i;
    unknown_peer_policy =
        text_field "unknown_peer_policy" "request-only" config.unknown_peer_policy refl i;
    min_trust_dm = number_field "min_trust_dm" (pos 0) config.min_trust_dm r.min_trust_dm refl i;
    min_trust_file =
        number_field "min_trust_file" (pos 0) config.min_trust_file r.min_trust_file refl i;
    min_trust_invite =
        number_field "min_trust_invite" (pos 0) config.min_trust_invite r.min_trust_invite refl i;
    default_ttl = default_ttl_field r.default_ttl refl i;
    persistence_enabled = bool_field "persistence_enabled" true config.persistence_enabled refl i;
    invite_only_default = bool_field "invite_only_default" false config.invite_only_default refl i;
    proof_of_work_enabled =
        bool_field "proof_of_work_enabled" false config.proof_of_work_enabled refl i;
    rate_limit_per_minute =
        number_field "rate_limit_per_minute" (pos 30) config.rate_limit_per_minute
          r.rate_limit_per_minute refl i;
    storage_node_enabled = (storage-saved i).storage_node_enabled;
    storage_quota_mb = (storage-saved i).quota_mb;
    storage_retention_days = (storage-saved i).retention_days;
    sfu_threshold =
        number_field "sfu_threshold" (pos 6) config.sfu_threshold r.sfu_threshold refl i;
    preferred_sfu_peer = text_field "preferred_sfu_peer" "" config.preferred_sfu_peer refl i;
    accept_relay = bool_field "accept_relay" false config.accept_relay refl i;
    experimental_media_e2ee =
        bool_field "experimental_media_e2ee" false config.experimental_media_e2ee refl i;
  }

-- A configuration whose numbers are of 64 bits, and whose addresses can be printed, is saved, and is
-- then loaded as it was, whatever the database had before, but for the offline key, which is not saved.
pub load_full_config-save_full_config_to_db :
    (J : Json (List String)) (L : JsonIsLawful (List String) J) (now : ℤ) (config : FullConfig)
    (addrs : String) (db : Db)
    → IsInRange config
    → J.to_string config.bootstrap_addrs ≡ ok addrs
    → ((save_full_config_to_db J now config db).0 ≡ ok tt)
      × (load_full_config J (save_full_config_to_db J now config db).1
          ≡ record config { offline_pubkey = none })
unfolding save_full_config_to_db saved
load_full_config-save_full_config_to_db J L now config addrs db r printed = (
  ground (arith, printed),
  ap (load_full_config J) (ground (arith, printed))
      ∙ load_full_config-saved J L now config addrs db r printed,
)
