-- ===== src/Desk/Tests.antt =====
-- The configuration and the limit on requests on small inputs.
use alter_chat.Base.{
  ℕ, ◌≤◌, ◌++◌, if◌then◌else◌, String, true, false, none, some, List, [], ◌∷◌, ◌≡◌, refl, arith,
  subst, some_inj,
}
use alter_chat.Base.Equality.{string_eq, bytes_eq}
use alter_chat.Base.Result.{Result, ok, err}
use alter_chat.Int.{pos, negsuc}
use alter_chat.Db.Json.{Json, JsonIsLawful}
use alter_chat.Db.Schema.{fresh_db}
use alter_chat.Desk.RateLimit.{Buckets, rate_limit_allows, limit_of}
use alter_chat.Desk.RateLimit.Bucket.{recent}
use alter_chat.Desk.RateLimit.Window.{first, call, recent-limit_of}
use alter_chat.Desk.Config.{FullConfig, load_full_config, save_full_config_to_db}
use alter_chat.Int.{IsI64}
use alter_chat.Desk.Config.RoundTrip.{IsInRange, load_full_config-save_full_config_to_db}

-- The only list that is printed is the empty one.
print_empty : List String → Result String
print_empty [] = ok "[]"
print_empty (a ∷ l) = err "too long"

abbrev json : Json (List String)
json = record { to_string = print_empty; from_str = λ s. ok [] }

json-IsLawful : JsonIsLawful (List String) json
unfolding print_empty
json-IsLawful = record { from_str-to_string = λ l. go l }
  where
    go : (l : List String) {s : String} → print_empty l ≡ ok s → json.from_str s ≡ ok l
    go [] h = refl
    go (a ∷ l) h = ground arith

abbrev config : FullConfig
config = record {
  nick = "me";
  offline_pubkey = none;
  bootstrap_ip = "";
  bootstrap_addrs = [];
  tor_enabled = true;
  proxy_mode = "none";
  proxy_addr = "";
  mdns_enabled = false;
  dht_server_mode = false;
  relay_enabled = true;
  transport_preference = "quic";
  relay_fallback_enabled = false;
  publish_capabilities = true;
  cover_traffic = true;
  msg_delay = true;
  local_notifications = false;
  unknown_peer_policy = "block";
  min_trust_dm = negsuc 4;
  min_trust_file = pos 0;
  min_trust_invite = pos 12;
  default_ttl = some (pos 60);
  persistence_enabled = true;
  invite_only_default = false;
  proof_of_work_enabled = true;
  rate_limit_per_minute = pos 30;
  storage_node_enabled = true;
  storage_quota_mb = pos 512;
  storage_retention_days = pos 7;
  sfu_threshold = pos 6;
  preferred_sfu_peer = "";
  accept_relay = false;
  experimental_media_e2ee = false;
}

in_range : IsInRange config
in_range = record {
  min_trust_dm = omega arith;
  min_trust_file = omega arith;
  min_trust_invite = omega arith;
  rate_limit_per_minute = omega arith;
  sfu_threshold = omega arith;
  default_ttl = λ z e. subst IsI64 (some_inj e) (omega arith);
}

load_full_config-save_full_config_to_db_example :
    ((save_full_config_to_db json (pos 1) config fresh_db).0 ≡ ok tt)
    × (load_full_config json (save_full_config_to_db json (pos 1) config fresh_db).1 ≡ config)
unfolding print_empty
load_full_config-save_full_config_to_db_example =
    load_full_config-save_full_config_to_db json json-IsLawful (pos 1) config "[]" fresh_db in_range
      refl

-- Two requests within a minute, of which the second is refused.
abbrev once : Buckets
once = (rate_limit_allows (pos 5) "bob" (pos 1) []).1

abbrev granted : List ℕ
granted = if (rate_limit_allows (pos 5) "bob" (pos 1) []).0 then 5 ∷ [] else []

abbrev granted_after : List ℕ
granted_after =
    if (rate_limit_allows (pos 6) "bob" (pos 1) once).0 then granted ++ 6 ∷ [] else granted

recent-limit_of_example : recent 7 granted_after ≤ limit_of (pos 1)
recent-limit_of_example =
    recent-limit_of "bob" (pos 1) 6 7 granted_after (rate_limit_allows (pos 6) "bob" (pos 1) once).1
      (call 6 (call 5 first (omega arith) (omega arith)) (omega arith) (omega arith)) (omega arith)
      (omega arith)
