-- ===== src/Node/Policy.antt =====
-- Whether a request is served at all, and the trust that some requests need
-- (alterchat-ui/src-tauri/src/lib.rs). A database that fails is not modelled.
use alter_chat.Base.{String, Bool, true, false, ◌||◌, not, if◌then◌else◌}
use alter_chat.Base.Result.{Result, ok, err}
use alter_chat.Int.{ℤ, pos, ltb_ℤ}
use alter_chat.Db.Rows.{PeerSettings}
use alter_chat.Db.Schema.{Db}
use alter_chat.Db.Settings.{get_peer_settings}
use alter_chat.Desk.Access.{peer_can_contact}
use alter_chat.Desk.Config.{FullConfig, setting_i64}
use alter_chat.Desk.RateLimit.{Buckets, rate_limit_allows}

-- What the head of the handler decides.
pub data Verdict : Type 0 where
  served : Verdict
  refused : Verdict
  rate_limited : Verdict

abbrev pub is_blocked : Result PeerSettings → Bool
is_blocked (ok settings) = settings.blocked
is_blocked (err e) = false

abbrev pub per_minute : FullConfig → Result PeerSettings → ℤ
per_minute config (ok settings) = settings.rate_limit_per_minute
per_minute config (err e) = config.rate_limit_per_minute

-- The limit is only counted for a peer that may contact the user.
unfoldable pub admit : ℤ → String → FullConfig → Buckets → Db → Verdict × Buckets × Db
admit now peer config buckets db =
    let (settings, db₁) = get_peer_settings peer db in
    let (contact, db₂) = peer_can_contact config.unknown_peer_policy peer db₁ in
    let (allowed, buckets') = rate_limit_allows now peer (per_minute config settings) buckets in
    if is_blocked settings
    then (refused, buckets, db₁)
    else if not contact
    then (refused, buckets, db₂)
    else (if allowed then served else rate_limited, buckets', db₂)

-- The test of the peer's settings against a setting that names the least trust.
unfoldable pub trusts : String → String → Db → Bool × Db
trusts min_trust peer db =
    let (settings, after) = get_peer_settings peer db in
    (
      elim settings [
        | ok s ↦ not (s.blocked || ltb_ℤ s.trust_level (setting_i64 min_trust (pos 0) after))
        | err e ↦ true
      ],
      after,
    )
