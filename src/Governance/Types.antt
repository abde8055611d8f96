-- ===== src/Governance/Types.antt =====
-- The data of alterchat-core/src/governance.rs. An `i64` and an `i32` are integers; a `u32` is a
-- number.
use alter_chat.Base.{ℕ, String, List, Option}
use alter_chat.Base.Bytes.{Bytes}
use alter_chat.Base.Equality.{Eq}
use alter_chat.Int.{ℤ}

pub data Permission : Type 0 where
  read : Permission
  write : Permission
  invite : Permission
  send_file : Permission
  start_call : Permission
  moderate_local : Permission
  manage_roles : Permission

permission_dec : Discrete Permission
permission_dec = hlevel

instance unfoldable pub permission_eq : Eq Permission
unfolding permission_dec
permission_eq = record { dec = permission_dec }

pub record InviteToken : Type 0 where
  pub room_id : String
  pub room_password : Option String
  pub issuer_peer_id : String
  pub issuer_public_key : Bytes
  pub subject_peer_id : Option String
  pub expires_at : Option ℤ
  pub max_uses : Option ℕ
  pub capabilities : List Permission
  pub nonce : Bytes
  pub signature : Bytes

pub record Role : Type 0 where
  pub room_id : String
  pub role_id : String
  pub name : String
  pub permissions : List Permission

pub record PermissionGrant : Type 0 where
  pub room_id : String
  pub subject_peer_id : String
  pub role_id : String
  pub issuer_peer_id : String
  pub issuer_public_key : Bytes
  pub issued_at : ℤ
  pub expires_at : Option ℤ
  pub signature : Bytes

pub record TrustEdge : Type 0 where
  pub from_peer_id : String
  pub from_public_key : Bytes
  pub to_peer_id : String
  pub score : ℤ
  pub reason : String
  pub issued_at : ℤ
  pub signature : Bytes

pub record RevocationAnnouncement : Type 0 where
  pub invite_id : String
  pub room_id : String
  pub revoked_by : String
  pub revoked_at : ℤ
  pub signature : Bytes

-- `bincode::serialize` at the types that are signed.
pub record Codec : Type 0 where
  pub serialize_invite : InviteToken → Option Bytes
  pub serialize_grant : PermissionGrant → Option Bytes
  pub serialize_edge : TrustEdge → Option Bytes
  pub serialize_revocation : RevocationAnnouncement → Option Bytes
