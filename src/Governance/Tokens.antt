-- ===== src/Governance/Tokens.antt =====
-- Signing and checking of alterchat-core/src/governance.rs. The clock's time and the random nonce
-- are arguments.
use alter_chat.Base.Result.{Result, ok, map_err, fail_if, ◌>>=◌, ◌>>◌}
use alter_chat.Base.Bytes.{Bytes}
use alter_chat.Base.Equality.{◌==◌, string_eq, bytes_eq}
use alter_chat.Base.{
  ℕ, ◌/◌, ◌%◌, String, ◌<>◌, Bool, false, not, Option, List, [], ◌∷◌, ◌++◌, get_elem?,
}
use mathlib.Core.Option
use alter_chat.Crypto.{Crypto}
use alter_chat.Signer.{Signer}
use alter_chat.Int.{ℤ, pos, negsuc, clamp, ltb_ℤ}
use alter_chat.Governance.Types.{
  InviteToken, PermissionGrant, TrustEdge, RevocationAnnouncement, Permission, Codec,
}

-- `format!("{b:02x}")` of a byte, and of a sequence of bytes.
abbrev hex_digits : List String
hex_digits =
    "0" ∷ "1" ∷ "2" ∷ "3" ∷ "4" ∷ "5" ∷ "6" ∷ "7" ∷ "8" ∷ "9" ∷ "a" ∷ "b" ∷ "c" ∷ "d" ∷ "e" ∷ "f"
    ∷ []

abbrev pub hex_digit : ℕ → String
hex_digit n = Option.get_or (get_elem? hex_digits n) ""

unfoldable pub hex_string : Bytes → String
hex_string [] = ""
hex_string (b ∷ bs) = (hex_digit (b / 16 % 16) <> hex_digit (b % 16)) <> hex_string bs

unfoldable pub is_invite_expired : InviteToken → ℤ → Bool
is_invite_expired token now_ms =
    Option.get_or (Option.map (λ expires. ltb_ℤ expires now_ms) token.expires_at) false

module _ (S : Signer) where
  unfoldable pub sign_bytes : S.Keypair → Bytes → Result Bytes
  sign_bytes keypair payload = map_err (λ e. "sign failed: " <> e) (S.sign keypair payload)

  unfoldable pub verify_bytes : S.PublicKey → Bytes → Bytes → Bool
  verify_bytes public_key payload signature = S.verify public_key payload signature

  unfoldable pub decode_public_key : Bytes → Result S.PublicKey
  decode_public_key bytes = map_err (λ e. "invalid public key: " <> e) (S.try_decode_protobuf bytes)

  unfoldable pub public_key_peer_id : S.PublicKey → String
  public_key_peer_id public_key = S.peer_id public_key

module _ (K : Codec) where
  unfoldable pub invite_signing_bytes : InviteToken → Bytes
  invite_signing_bytes token =
      Option.get_or (K.serialize_invite (record token { signature = [] })) []

  unfoldable pub grant_signing_bytes : PermissionGrant → Bytes
  grant_signing_bytes grant = Option.get_or (K.serialize_grant (record grant { signature = [] })) []

  unfoldable pub trust_edge_signing_bytes : TrustEdge → Bytes
  trust_edge_signing_bytes edge =
      Option.get_or (K.serialize_edge (record edge { signature = [] })) []

  unfoldable pub revocation_signing_bytes : RevocationAnnouncement → Bytes
  revocation_signing_bytes ann =
      Option.get_or (K.serialize_revocation (record ann { signature = [] })) []

  unfoldable pub invite_id : Crypto → InviteToken → String
  invite_id C token = hex_string (C.sha256 (invite_signing_bytes token ++ token.signature))

module _ (S : Signer) (K : Codec) where
  unfoldable pub create_invite :
      S.Keypair
      → Bytes
      → String
      → Option String
      → Option String
      → Option ℤ
      → Option ℕ
      → List Permission
      → Result InviteToken
  create_invite keypair random_nonce room_id room_password subject_peer_id expires_at max_uses
        capabilities =
      do
        let token : InviteToken = record {
          room_id = room_id;
          room_password = room_password;
          issuer_peer_id = S.peer_id (S.public keypair);
          issuer_public_key = S.encode_protobuf (S.public keypair);
          subject_peer_id = subject_peer_id;
          expires_at = expires_at;
          max_uses = max_uses;
          capabilities = capabilities;
          nonce = random_nonce;
          signature = [];
        }
        signature ← sign_bytes S keypair (invite_signing_bytes K token)
        ok (record token { signature = signature })

  unfoldable pub create_permission_grant :
      S.Keypair → ℤ → String → String → String → Option ℤ → Result PermissionGrant
  create_permission_grant keypair now_ms room_id subject_peer_id role_id expires_at = do
    let grant : PermissionGrant = record {
      room_id = room_id;
      subject_peer_id = subject_peer_id;
      role_id = role_id;
      issuer_peer_id = S.peer_id (S.public keypair);
      issuer_public_key = S.encode_protobuf (S.public keypair);
      issued_at = now_ms;
      expires_at = expires_at;
      signature = [];
    }
    signature ← sign_bytes S keypair (grant_signing_bytes K grant)
    ok (record grant { signature = signature })

  unfoldable pub create_trust_edge : S.Keypair → ℤ → String → ℤ → String → Result TrustEdge
  create_trust_edge keypair now_ms to_peer_id score reason = do
    let edge : TrustEdge = record {
      from_peer_id = S.peer_id (S.public keypair);
      from_public_key = S.encode_protobuf (S.public keypair);
      to_peer_id = to_peer_id;
      score = clamp (negsuc 9) (pos 10) score;
      reason = reason;
      issued_at = now_ms;
      signature = [];
    }
    signature ← sign_bytes S keypair (trust_edge_signing_bytes K edge)
    ok (record edge { signature = signature })

  unfoldable pub verify_invite : InviteToken → Result (Unit {0})
  verify_invite token = do
    public_key ← decode_public_key S token.issuer_public_key
    fail_if (not (public_key_peer_id S public_key == token.issuer_peer_id))
        "invite issuer public key does not match issuer peer id"
    fail_if (not (verify_bytes S public_key (invite_signing_bytes K token) token.signature))
        "invite signature rejected"
    ok tt

  unfoldable pub verify_permission_grant : PermissionGrant → Result (Unit {0})
  verify_permission_grant grant = do
    public_key ← decode_public_key S grant.issuer_public_key
    fail_if (not (public_key_peer_id S public_key == grant.issuer_peer_id))
        "permission issuer public key does not match issuer peer id"
    fail_if (not (verify_bytes S public_key (grant_signing_bytes K grant) grant.signature))
        "permission grant signature rejected"
    ok tt

  unfoldable pub verify_trust_edge : TrustEdge → Result (Unit {0})
  verify_trust_edge edge = do
    public_key ← decode_public_key S edge.from_public_key
    fail_if (not (public_key_peer_id S public_key == edge.from_peer_id))
        "trust edge public key does not match source peer id"
    fail_if (not (verify_bytes S public_key (trust_edge_signing_bytes K edge) edge.signature))
        "trust edge signature rejected"
    ok tt
