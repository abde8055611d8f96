-- ===== src/Vault/RoundTrip.antt =====
-- What was encrypted at rest reads back (alterchat-core/src/secure_storage.rs and crdt.rs).
use alter_chat.Base.Result.{ok_inj, >>=-eq-ok, ok_or-eq-ok, ok, ok_or}
use alter_chat.Base.Bytes.{Bytes}
use alter_chat.Base.{
  inl, inr, ◌++◌, append_assoc, Option-cases, some_inj, String, ◌≡◌, subst, some, arith, length,
  length-append, take_prefix, drop_prefix,
}
use alter_chat.Crypto.{Crypto, IsLawful}
use alter_chat.Vault.{
  derive_file_key, encrypt_file_data, decrypt_file_data, encrypt_payload, decrypt_payload,
}

module _ (C : Crypto) (L : IsLawful C) where
  opens :
      (argon2 : Bytes → Bytes → Bytes) (salt nonce : Bytes) (password : String)
      (plaintext c : Bytes)
      → length salt ≡ 16
      → length nonce ≡ 12
      → C.aead_encrypt (derive_file_key argon2 password salt) nonce plaintext ≡ some c
      → decrypt_file_data C argon2 password (salt ++ (nonce ++ c)) ≡ ok plaintext
  unfolding decrypt_file_data
  opens argon2 salt nonce password plaintext c hs hn e =
      let both : length (salt ++ nonce) ≡ 28 = omega (arith, length-append salt nonce) in
      ground (
        arith,
        take_prefix 16 salt (nonce ++ c) hs,
        drop_prefix 16 salt (nonce ++ c) hs,
        take_prefix 12 nonce c hn,
        drop_prefix 28 (salt ++ nonce) c both,
        append_assoc salt nonce c,
        length-append salt (nonce ++ c),
        length-append nonce c,
        L.aead_correct _ nonce plaintext e,
      )

  -- A file that was encrypted with a salt of 16 and a nonce of 12 bytes decrypts, with the password
  -- that it was encrypted with, to its contents (lawful primitives).
  pub decrypt_file_data-encrypt_file_data :
      (argon2 : Bytes → Bytes → Bytes) (salt nonce : Bytes) (password : String) (plaintext : Bytes)
      {bytes : Bytes}
      → length salt ≡ 16
      → length nonce ≡ 12
      → encrypt_file_data C argon2 salt nonce password plaintext ≡ some bytes
      → decrypt_file_data C argon2 password bytes ≡ ok plaintext
  unfolding encrypt_file_data decrypt_file_data
  decrypt_file_data-encrypt_file_data argon2 salt nonce password plaintext {bytes} hs hn h =
      elim (Option-cases (C.aead_encrypt (derive_file_key argon2 password salt) nonce plaintext)) [
        | inl n ↦ ground (arith, n, h)
        | inr (c, e) ↦
            subst (λ q. decrypt_file_data C argon2 password q ≡ ok plaintext)
              (some_inj (ground (arith, e, h)))
              (opens argon2 salt nonce password plaintext c hs hn e)
      ]

  -- A room's payload that was encrypted with a nonce of 12 bytes decrypts with the room's key to what
  -- was encrypted, and a shorter payload than a nonce is refused (lawful primitives).
  pub decrypt_payload-encrypt_payload :
      (key nonce plaintext : Bytes) {payload : Bytes}
      → length nonce ≡ 12
      → encrypt_payload C key nonce plaintext ≡ ok payload
      → decrypt_payload C key payload ≡ ok plaintext
  unfolding encrypt_payload decrypt_payload
  decrypt_payload-encrypt_payload key nonce plaintext {payload} hn h =
      let (c, e, made) =
        >>=-eq-ok (ok_or (C.aead_encrypt key nonce plaintext) "Encryption failed") _ h in
      subst (λ q. decrypt_payload C key q ≡ ok plaintext) (ok_inj made)
        (ground (
          arith,
          take_prefix 12 nonce c hn,
          drop_prefix 12 nonce c hn,
          length-append nonce c,
          L.aead_correct key nonce plaintext (ok_or-eq-ok _ _ e),
        ))
