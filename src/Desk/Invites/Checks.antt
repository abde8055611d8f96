-- ===== src/Desk/Invites/Checks.antt =====
-- What `accept_invite` of alterchat-ui/src-tauri/src/commands/governance.rs checks.
use alter_chat.Base.{ℕ, String, Bool, false, ◌||◌, Option, none, some}
use mathlib.Core.Option
use alter_chat.Base.Result.{Result, ok, err, fail_if, ◌>>=◌, ◌>>◌}
use alter_chat.Int.{ℤ, pos, ltb_ℤ, leb_ℤ}
use alter_chat.Governance.Types.{InviteToken}
use alter_chat.Governance.Tokens.{is_invite_expired, verify_invite}
use alter_chat.Db.Schema.{Db}
use alter_chat.Db.Rows.{PeerSettings}
use alter_chat.Db.Settings.{load_setting}
use alter_chat.Desk.Decimal.{parse_i64}
use alter_chat.Desk.Env.{Env}

-- `min_trust_invite`, which is 0 if it is not there or not a number.
unfoldable pub min_trust_invite : Db → ℤ
min_trust_invite db =
    Option.get_or (Option.bind (load_setting "min_trust_invite" db) parse_i64) (pos 0)

-- The check of the issuer's local settings.
unfoldable pub check_issuer : ℤ → Result PeerSettings → Result (Unit {0})
check_issuer min_trust (ok settings) =
    fail_if (settings.blocked || ltb_ℤ settings.trust_level min_trust)
      "Invite issuer is blocked or below trust threshold"
check_issuer min_trust (err e) =
    fail_if (ltb_ℤ (pos 0) min_trust) "Invite issuer does not meet trust threshold"

-- The check of what is stored of the invitation.
unfoldable pub check_state : Option ℕ → Option (Bool × ℤ) → Result (Unit {0})
check_state max_uses none = ok tt
check_state max_uses (some (revoked, uses)) = do
  fail_if revoked "Invite revoked"
  fail_if (Option.get_or (Option.map (λ max. leb_ℤ (pos max) uses) max_uses) false)
      "Invite use limit reached"

module _ (E : Env) where
  -- The checks that come before the database is opened.
  unfoldable pub check_token : ℤ → String → Result InviteToken
  check_token now token_json = do
    token ← E.tokens.from_str token_json
    verify_invite E.S E.K token
    fail_if (is_invite_expired token now) "Invite expired"
    ok token
