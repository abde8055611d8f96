-- ===== src/Desk/Invites.antt =====
-- The commands on invitations (alterchat-ui/src-tauri/src/commands/governance.rs). The time and the
-- random nonce are arguments; an error's text is passed on (`map_err(|e| e.to_string())`).
pub mod Checks
pub mod Course
pub mod Limit
pub mod Joins
pub mod Created
mod Tests
use alter_chat.Base.{
  ℕ, String, Bool, true, false, not, ◌||◌, List, [], ◌∷◌, Option, none, some, if◌then◌else◌,
}
use mathlib.Core.Option
use alter_chat.Base.Bytes.{Bytes}
use alter_chat.Base.Result.{Result, ok, err, fail_if}
use alter_chat.Base.Action.{Action, pure, lift, modify, gets, ◌>>=◌, ◌>>◌}
use alter_chat.Int.{ℤ, pos, ◌+ℤ◌, ◌*ℤ◌, ltb_ℤ, leb_ℤ, i64}
use alter_chat.Crypto.{Crypto}
use alter_chat.Signer.{Signer}
use alter_chat.Governance.Types.{
  Role, PermissionGrant, InviteToken, Permission, Codec, read, write, invite, send_file, start_call,
}
use alter_chat.Governance.Tokens.{is_invite_expired, verify_invite, invite_id}
use alter_chat.Governance.Tokens
use alter_chat.Db.Json.{Json}
use alter_chat.Db.Schema.{Db}
use alter_chat.Db.Rows.{PeerSettings}
use alter_chat.Db.Settings.{load_setting, get_peer_settings}
use alter_chat.Db.Rooms.{get_invite_state, save_group, increment_invite_use, save_invite}
use alter_chat.Db.Rooms
use alter_chat.Desk.Decimal.{parse_i64}
use alter_chat.Desk.Session.{AppState, Platform, connect, keypair}
use alter_chat.Desk.Access.{room_action_allowed}
use alter_chat.Desk.Env.{Env}
use alter_chat.Desk.Invites.Checks.{min_trust_invite, check_issuer, check_state, check_token}

-- A call whose error the caller looks at.
abbrev attempt : {A : Type 0} → Action Db A → Action Db (Result A)
attempt m db = let (r, after) = m db in (ok r, after)

-- The use is counted if the invitation is stored.
unfoldable pub join_room : InviteToken → String → Db → Db
join_room token id db =
    let joined = save_group token.room_id token.room_password db in
    elim (get_invite_state id joined) [
      | none ↦ joined
      | some state ↦ increment_invite_use id joined
    ]

module _ (E : Env) where
  unfoldable pub create_invite :
      ℤ → Bytes → String → Option String → Option ℤ → Option ℕ → AppState → Action Db String
  create_invite now nonce room_id room_password expires_in_seconds max_uses state = do
    connect E.S E.P state
    key ← keypair E.S E.P state
    let my_peer_id = E.S.peer_id (E.S.public key)
    allowed ← gets (room_action_allowed E.S E.K E.roles E.grants now room_id my_peer_id invite)
    lift (fail_if (not allowed) "Invite permission denied")
    let expires_at =
        Option.map (λ seconds. i64 (now +ℤ i64 (seconds *ℤ pos 1000))) expires_in_seconds
    token ← lift (
        Tokens.create_invite E.S E.K key nonce room_id room_password none expires_at max_uses
          (read ∷ write ∷ send_file ∷ start_call ∷ []))
    token_json ← lift (E.tokens.to_string token)
    modify (save_invite now (invite_id E.K E.C token) room_id token_json)
    pure token_json

  unfoldable pub accept_invite : ℤ → String → AppState → Action Db (String × Option String)
  accept_invite now token_json state = do
    token ← lift (check_token E now token_json)
    connect E.S E.P state
    min_trust ← gets min_trust_invite
    settings ← attempt (get_peer_settings token.issuer_peer_id)
    lift (check_issuer min_trust settings)
    let id = invite_id E.K E.C token
    known ← gets (get_invite_state id)
    lift (check_state token.max_uses known)
    modify (join_room token id)
    pure (token.room_id, token.room_password)

  unfoldable pub list_invites : String → AppState → Action Db (List String)
  list_invites room_id state = do connect E.S E.P state; gets (Rooms.list_invites room_id)

  unfoldable pub revoke_invite : String → AppState → Action Db (Unit {0})
  revoke_invite invite_id state = do connect E.S E.P state; modify (Rooms.revoke_invite invite_id)
