-- ===== src/Envelope/RoundTrip.antt =====
-- What the receiver of an encrypted or a sealed message reads, and both views of a safety number
-- (alterchat-core/src/crypto.rs).
use alter_chat.Base.Result.{ok_inj, >>=-eq-ok, ok_or-eq-ok, ok, ok_or}
use alter_chat.Base.Bytes.{Bytes}
use alter_chat.Base.{
  String, ◌≡◌, refl, sym, ap, ◌∙◌, subst, inl, inr, true, false, [], ◌∷◌, arith, Bool-cases,
}
use alter_chat.Crypto.{Crypto, IsLawful}
use alter_chat.Envelope.{
  EncryptedPayload, SealedMessage, SealedCodec, SealedIsLawful, ltb_bytes, encrypt_for_peer,
  decrypt_for_me, get_public_key, derive_safety_number, sealed_send, sealed_receive,
}

module _ (C : Crypto) (L : IsLawful C) where
  pub decrypt_for_me-encrypt_for_peer :
      (ephemeral nonce secret plaintext : Bytes) {payload : EncryptedPayload}
      → encrypt_for_peer C ephemeral nonce (C.public_key secret) plaintext ≡ ok payload
      → decrypt_for_me C secret payload ≡ ok plaintext
  unfolding encrypt_for_peer decrypt_for_me
  decrypt_for_me-encrypt_for_peer ephemeral nonce secret plaintext {payload} h =
      let shared = C.diffie_hellman ephemeral (C.public_key secret) in
      let (c, e, made) =
        >>=-eq-ok (ok_or (C.aead_encrypt shared nonce plaintext) "Encryption failed") _ h in
      subst (λ q. decrypt_for_me C secret q ≡ ok plaintext) (ok_inj made)
        (ground (
          arith,
          L.dh_comm secret ephemeral,
          L.aead_correct shared nonce plaintext (ok_or-eq-ok _ _ e),
        ))

  -- The receiver of a sealed message reads the public key, the name and the message of its sender,
  -- if what is serialized can be read back (lawful primitives).
  pub sealed_receive-sealed_send :
      (S : SealedCodec) (R : SealedIsLawful S) (ephemeral nonce my_secret : Bytes)
      (my_peer_id : String) (secret plaintext : Bytes) {msg : SealedMessage}
      → sealed_send C S ephemeral nonce my_secret my_peer_id (get_public_key C secret) plaintext
        ≡ ok msg
      → sealed_receive C S secret msg ≡ ok (get_public_key C my_secret, my_peer_id, plaintext)
  unfolding sealed_send sealed_receive get_public_key
  sealed_receive-sealed_send S R ephemeral nonce my_secret my_peer_id secret plaintext {msg} h =
      let (bytes, e, h₁) = >>=-eq-ok (ok_or (S.serialize _) "Serialize error") _ h in
      let (outer, sent, h₂) = >>=-eq-ok (encrypt_for_peer C ephemeral nonce _ bytes) _ h₁ in
      subst (λ q. sealed_receive C S secret q ≡ ok (C.public_key my_secret, my_peer_id, plaintext))
        (ok_inj h₂)
        (ground (
          arith,
          decrypt_for_me-encrypt_for_peer ephemeral nonce secret bytes sent,
          R.read_back _ (ok_or-eq-ok _ _ e),
        ))

ltb_bytes_total : (xs ys : Bytes) → ltb_bytes xs ys ≡ false → ltb_bytes ys xs ≡ false → xs ≡ ys
unfolding ltb_bytes
ltb_bytes_total [] [] h h' = refl
ltb_bytes_total [] (y ∷ ys) h h' = ground arith
ltb_bytes_total (x ∷ xs) [] h h' = ground arith
ltb_bytes_total (x ∷ xs) (y ∷ ys) h h' = ground (arith, ltb_bytes_total xs ys)

ltb_bytes_asymm : (xs ys : Bytes) → ltb_bytes xs ys ≡ true → ltb_bytes ys xs ≡ false
unfolding ltb_bytes
ltb_bytes_asymm [] [] h = ground arith
ltb_bytes_asymm [] (y ∷ ys) h = refl
ltb_bytes_asymm (x ∷ xs) [] h = ground arith
ltb_bytes_asymm (x ∷ xs) (y ∷ ys) h = ground (arith, ltb_bytes_asymm xs ys)

-- Two peers see the same safety number, each from its own side.
pub derive_safety_number_comm :
    (C : Crypto) (mine theirs : Bytes)
    → derive_safety_number C mine theirs ≡ derive_safety_number C theirs mine
unfolding derive_safety_number
derive_safety_number_comm C mine theirs = elim (Bool-cases (ltb_bytes mine theirs)) [
  | inl e ↦ rw (e, ltb_bytes_asymm mine theirs e) refl
  | inr e ↦ elim (Bool-cases (ltb_bytes theirs mine)) [
    | inl e' ↦ rw (e, e') refl
    | inr e' ↦
        ap (λ k. derive_safety_number C k theirs) (ltb_bytes_total mine theirs e e')
        ∙ ap (λ k. derive_safety_number C theirs k) (sym (ltb_bytes_total mine theirs e e'))
  ]
]
