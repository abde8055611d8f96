-- ===== src/Desk/Env.antt =====
-- The parameters of the commands on governance.
use alter_chat.Crypto.{Crypto}
use alter_chat.Signer.{Signer}
use alter_chat.Governance.Types.{Role, PermissionGrant, InviteToken, TrustEdge, Codec}
use alter_chat.Db.Json.{Json}
use alter_chat.Desk.Session.{Platform}

-- What the commands on invitations stand on: the signatures, the files, the hash, and the encodings.
pub record Env : Type 1 where
  pub S : Signer
  pub P : Platform S
  pub C : Crypto
  pub K : Codec
  pub roles : Json Role
  pub grants : Json PermissionGrant
  pub tokens : Json InviteToken
  pub edges : Json TrustEdge
