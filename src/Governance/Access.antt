-- ===== src/Governance/Access.antt =====
-- Who may do what in a room (alterchat-core/src/governance.rs).
use alter_chat.Base.Result.{is_ok}
use alter_chat.Base.Member.{any}
use alter_chat.Base.Equality.{◌==◌, string_eq, bytes_eq}
use alter_chat.Base.{String, Bool, true, ◌&&◌, List, [], ◌∷◌}
use mathlib.Core.Option
use alter_chat.Signer.{Signer}
use alter_chat.Int.{ℤ, leb_ℤ}
use alter_chat.Governance.Types.{
  Role, PermissionGrant, Permission, Codec, permission_eq, read, write, invite, send_file,
  start_call, moderate_local, manage_roles,
}
use alter_chat.Governance.Tokens.{verify_permission_grant}

unfoldable pub default_roles : String → List Role
default_roles room_id =
    record {
      room_id = room_id;
      role_id = "owner";
      name = "Owner";
      permissions =
          read ∷ write ∷ invite ∷ send_file ∷ start_call ∷ moderate_local ∷ manage_roles ∷ [];
    }
    ∷ record {
      room_id = room_id;
      role_id = "member";
      name = "Member";
      permissions = read ∷ write ∷ invite ∷ send_file ∷ start_call ∷ [];
    }
    ∷ record { room_id = room_id; role_id = "guest"; name = "Guest"; permissions = read ∷ [] }
    ∷ []

-- The role of a grant, if it has the permission.
unfoldable pub role_allows : PermissionGrant → Permission → Role → Bool
role_allows grant permission role =
    role.room_id == grant.room_id
    && (role.role_id == grant.role_id && any (λ p. p == permission) role.permissions)

-- `expires_at.map(|expires| expires >= now_ms).unwrap_or(true)`
unfoldable pub grant_is_current : PermissionGrant → ℤ → Bool
grant_is_current grant now_ms =
    Option.get_or (Option.map (λ expires. leb_ℤ now_ms expires) grant.expires_at) true

module _ (S : Signer) (K : Codec) where
  unfoldable pub grant_allows : List Role → String → Permission → ℤ → PermissionGrant → Bool
  grant_allows roles peer_id permission now_ms grant =
      grant.subject_peer_id == peer_id
      && (is_ok (verify_permission_grant S K grant)
          && (grant_is_current grant now_ms && any (role_allows grant permission) roles))

  unfoldable pub has_permission : List PermissionGrant → List Role → String → Permission → ℤ → Bool
  has_permission grants roles peer_id permission now_ms =
      any (grant_allows roles peer_id permission now_ms) grants
