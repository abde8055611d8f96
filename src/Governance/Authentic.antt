-- ===== src/Governance/Authentic.antt =====
-- What is signed is accepted, and what is accepted was signed by the key of its issuer
-- (alterchat-core/src/governance.rs).
use alter_chat.Base.Result.{fail_if-not-eq-ok, ok_inj, >>=-eq-ok, map_err-eq-ok, ok}
use alter_chat.Base.Bytes.{Bytes}
use alter_chat.Base.Equality.{==_sound, bytes_eq, string_eq, ==_refl}
use alter_chat.Base.{sym, ap, ◌∙◌, ◌↔◌, ℕ, String, ◌<>◌, ◌≡◌, subst, true, Option, List, arith}
use alter_chat.Signer.{Signer, IsLawful}
use alter_chat.Int.{clamp, pos, ◌≤ℤ◌, negsuc, ℤ}
use alter_chat.Governance.Types.{TrustEdge, PermissionGrant, InviteToken, Permission, Codec}
use alter_chat.Governance.Tokens.{
  trust_edge_signing_bytes, grant_signing_bytes, create_permission_grant, create_trust_edge,
  verify_permission_grant, verify_trust_edge, sign_bytes, verify_bytes, decode_public_key,
  public_key_peer_id, invite_signing_bytes, create_invite, verify_invite,
}

module _ (S : Signer) (L : IsLawful S) (k : S.Keypair) where
  pub sign_bytes-verify :
      (m s : Bytes) → sign_bytes S k m ≡ ok s → verify_bytes S (S.public k) m s ≡ true
  unfolding sign_bytes verify_bytes
  sign_bytes-verify m s h =
      L.verify-sign k m (map_err-eq-ok (λ e. "sign failed: " <> e) (S.sign k m) h)

  pub decode_public_key-encode :
      decode_public_key S (S.encode_protobuf (S.public k)) ≡ ok (S.public k)
  unfolding decode_public_key
  decode_public_key-encode = ground (arith, L.decode-encode (S.public k))

clamp_range :
    (x : ℤ) → (negsuc 9 ≤ℤ clamp (negsuc 9) (pos 10) x) × (clamp (negsuc 9) (pos 10) x ≤ℤ pos 10)
clamp_range x = ground arith

clamp_id : (x : ℤ) → negsuc 9 ≤ℤ x → x ≤ℤ pos 10 → clamp (negsuc 9) (pos 10) x ≡ x
clamp_id x lo hi = ground arith

module _ (S : Signer) (L : IsLawful S) (K : Codec) (k : S.Keypair) where
  -- An invitation that was created passes its check.
  pub verify_invite-create_invite :
      (nonce : Bytes) (room_id : String) (password subject : Option String) (expires_at : Option ℤ)
      (max_uses : Option ℕ) (capabilities : List Permission) {token : InviteToken}
      → create_invite S K k nonce room_id password subject expires_at max_uses capabilities
        ≡ ok token
      → verify_invite S K token ≡ ok tt
  unfolding create_invite verify_invite invite_signing_bytes public_key_peer_id
  verify_invite-create_invite nonce room_id password subject expires_at max_uses capabilities
        {token} h =
      let (s, signed, e) = >>=-eq-ok (sign_bytes S k _) _ h in
      subst (λ t. verify_invite S K t ≡ ok tt) (ok_inj e)
        (ground (
          arith,
          decode_public_key-encode S L k,
          sign_bytes-verify S L k _ s signed,
          ==_refl (S.peer_id (S.public k)),
        ))

  -- A grant that was created passes its check.
  pub verify_permission_grant-create_permission_grant :
      (now : ℤ) (room_id subject role_id : String) (expires_at : Option ℤ) {grant : PermissionGrant}
      → create_permission_grant S K k now room_id subject role_id expires_at ≡ ok grant
      → (verify_permission_grant S K grant ≡ ok tt)
        × (grant.room_id ≡ room_id)
        × (grant.subject_peer_id ≡ subject)
        × (grant.role_id ≡ role_id)
        × (grant.expires_at ≡ expires_at)
        × (grant.issuer_peer_id ≡ S.peer_id (S.public k))
  unfolding create_permission_grant verify_permission_grant grant_signing_bytes public_key_peer_id
  verify_permission_grant-create_permission_grant now room_id subject role_id expires_at {grant} h =
      let (s, signed, e) = >>=-eq-ok (sign_bytes S k _) _ h in
      let e' = ok_inj e in
      (
        subst (λ t. verify_permission_grant S K t ≡ ok tt) e'
            (ground (
              arith,
              decode_public_key-encode S L k,
              sign_bytes-verify S L k _ s signed,
              ==_refl (S.peer_id (S.public k)),
            )),
        ap (λ g. g.room_id) (sym e'),
        ap (λ g. g.subject_peer_id) (sym e'),
        ap (λ g. g.role_id) (sym e'),
        ap (λ g. g.expires_at) (sym e'),
        ap (λ g. g.issuer_peer_id) (sym e'),
      )

  -- A trust edge that was created passes its check, and its score is between -10 and 10 and is
  -- the score that was asked for if that is in the range.
  pub verify_trust_edge-create_trust_edge :
      (now : ℤ) (to_peer_id : String) (score : ℤ) (reason : String) {edge : TrustEdge}
      → create_trust_edge S K k now to_peer_id score reason ≡ ok edge
      → (verify_trust_edge S K edge ≡ ok tt)
        × (negsuc 9 ≤ℤ edge.score)
        × (edge.score ≤ℤ pos 10)
        × (negsuc 9 ≤ℤ score → score ≤ℤ pos 10 → edge.score ≡ score)
  unfolding create_trust_edge verify_trust_edge trust_edge_signing_bytes public_key_peer_id
  verify_trust_edge-create_trust_edge now to_peer_id score reason {edge} h =
      let (s, signed, e) = >>=-eq-ok (sign_bytes S k _) _ h in
      let e' = ok_inj e in
      let in_range = ap (λ g. g.score) (sym e') in
      (
        subst (λ t. verify_trust_edge S K t ≡ ok tt) e'
            (ground (
              arith,
              decode_public_key-encode S L k,
              sign_bytes-verify S L k _ s signed,
              ==_refl (S.peer_id (S.public k)),
            )),
        subst (λ z. negsuc 9 ≤ℤ z) (sym in_range) (clamp_range score).0,
        subst (λ z. z ≤ℤ pos 10) (sym in_range) (clamp_range score).1,
        λ lo hi. in_range ∙ clamp_id score lo hi,
      )

  -- The check of an edge does not look at the score: an edge with any score passes it if its
  -- sender, whose key and peer id it names, has signed it.
  pub verify_trust_edge-any_score :
      (edge : TrustEdge) (s : Bytes)
      → edge.from_peer_id ≡ S.peer_id (S.public k)
      → edge.from_public_key ≡ S.encode_protobuf (S.public k)
      → sign_bytes S k (trust_edge_signing_bytes K edge) ≡ ok s
      → verify_trust_edge S K (record edge { signature = s }) ≡ ok tt
  unfolding verify_trust_edge trust_edge_signing_bytes public_key_peer_id
  verify_trust_edge-any_score edge s hp hk signed = ground (
    arith,
    decode_public_key-encode S L k,
    sign_bytes-verify S L k (trust_edge_signing_bytes K edge) s signed,
    ==_refl (S.peer_id (S.public k)),
  )

module _ (S : Signer) (K : Codec) where
  -- A grant passes its check exactly if its issuer's key decodes to a key whose peer id is the
  -- issuer named, and that key accepts the signature for the grant's other fields.
  pub verify_permission_grant_iff :
      (grant : PermissionGrant)
      → verify_permission_grant S K grant ≡ ok tt ↔ (
          (key : S.PublicKey) × (decode_public_key S grant.issuer_public_key ≡ ok key)
          × (public_key_peer_id S key ≡ grant.issuer_peer_id)
          × (verify_bytes S key (grant_signing_bytes K grant) grant.signature ≡ true))
  unfolding verify_permission_grant
  verify_permission_grant_iff grant = (
    (λ h.
        let (key, decoded, h₁) = >>=-eq-ok (decode_public_key S grant.issuer_public_key) _ h in
        let (same, h₂) = fail_if-not-eq-ok _ _ _ h₁ in
        let (signed, h₃) = fail_if-not-eq-ok _ _ _ h₂ in (key, decoded, ==_sound same, signed)),
    λ (key, decoded, same, signed).
        ground (arith, decoded, signed, same, ==_refl grant.issuer_peer_id),
  )
