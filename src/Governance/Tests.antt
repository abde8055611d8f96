-- ===== src/Governance/Tests.antt =====
-- Governance (alterchat-core/src/governance.rs) on small inputs.
use alter_chat.Base.Result.{ok}
use alter_chat.Base.Member.{In}
use alter_chat.Base.Equality.{string_eq}
use alter_chat.Base.{◌≡◌, refl, ◌↔◌, true, none, some, [], ◌∷◌, length}
use alter_chat.Signer.Toy.{toy, toy-IsLawful}
use alter_chat.Int.{pos}
use alter_chat.Governance.Types.{
  Role, InviteToken, PermissionGrant, TrustEdge, Codec, read, manage_roles,
}
use alter_chat.Governance.Tokens.{
  create_permission_grant, verify_permission_grant, sign_bytes, grant_signing_bytes,
}
use alter_chat.Governance.Access.{default_roles, has_permission}
use alter_chat.Governance.Authentic.{verify_permission_grant-create_permission_grant}
use alter_chat.Governance.Permissions.{Entitles, has_permission_iff, has_permission-self_grant}

-- The lengths of a few fields stand for the encodings.
abbrev codec : Codec
codec = record {
  serialize_invite = λ t. some (length t.nonce ∷ length t.capabilities ∷ []);
  serialize_grant = λ g. some (length g.issuer_public_key ∷ length g.signature ∷ []);
  serialize_edge = λ e. some (length e.from_public_key ∷ length e.signature ∷ []);
  serialize_revocation = λ r. some (length r.signature ∷ []);
}

abbrev invitation : InviteToken
invitation = record {
  room_id = "room";
  room_password = none;
  issuer_peer_id = "alice";
  issuer_public_key = 1 ∷ [];
  subject_peer_id = none;
  expires_at = some (pos 7);
  max_uses = some 3;
  capabilities = read ∷ [];
  nonce = 5 ∷ [];
  signature = 1 ∷ 1 ∷ 1 ∷ [];
}

-- Bob makes himself an owner.
abbrev own_grant : PermissionGrant
own_grant = record {
  room_id = "room";
  subject_peer_id = "bob";
  role_id = "owner";
  issuer_peer_id = "bob";
  issuer_public_key = 2 ∷ [];
  issued_at = pos 4;
  expires_at = none;
  signature = 2 ∷ 1 ∷ 0 ∷ [];
}

has_permission-self_grant_example :
    has_permission toy codec (own_grant ∷ []) (default_roles "room") "bob" manage_roles (pos 5)
    ≡ true
unfolding create_permission_grant sign_bytes grant_signing_bytes
has_permission-self_grant_example =
    has_permission-self_grant toy codec toy-IsLawful 2 (pos 4) (pos 5) "room" manage_roles []
      {grant = own_grant} refl

own_grant_created :
    create_permission_grant toy codec 2 (pos 4) "room" "bob" "owner" none ≡ ok own_grant
unfolding create_permission_grant sign_bytes grant_signing_bytes
own_grant_created = refl

verify_permission_grant-create_permission_grant_example :
    (verify_permission_grant toy codec own_grant ≡ ok tt)
    × (own_grant.room_id ≡ "room")
    × (own_grant.subject_peer_id ≡ "bob")
    × (own_grant.role_id ≡ "owner")
    × (own_grant.expires_at ≡ none)
    × (own_grant.subject_peer_id ≡ "bob")
verify_permission_grant-create_permission_grant_example =
    verify_permission_grant-create_permission_grant toy toy-IsLawful codec 2 (pos 4) "room" "bob"
      "owner" none own_grant_created

has_permission_iff_example :
    has_permission toy codec (own_grant ∷ []) (default_roles "room") "bob" read (pos 5) ≡ true ↔ (
      (grant : PermissionGrant) × In grant (own_grant ∷ [])
      × (role : Role) × In role (default_roles "room")
      × Entitles toy codec "bob" read (pos 5) grant role)
has_permission_iff_example =
    has_permission_iff toy codec (own_grant ∷ []) (default_roles "room") "bob" read (pos 5)

abbrev praise : TrustEdge
praise = record {
  from_peer_id = "alice";
  from_public_key = 1 ∷ [];
  to_peer_id = "bob";
  score = pos 10;
  reason = "kind";
  issued_at = pos 4;
  signature = 1 ∷ 1 ∷ 0 ∷ [];
}
