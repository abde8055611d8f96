-- ===== src/Vault.antt =====
-- Files at rest (alterchat-core/src/secure_storage.rs), and the rooms' payloads
-- (alterchat-core/src/crdt.rs). Salts and nonces are arguments; Argon2 and PBKDF2 are parameters.
pub mod RoundTrip
use alter_chat.Base.Result.{Result, ok, err, ok_or, ◌>>=◌, ◌>>◌}
use alter_chat.Base.Bytes.{Bytes}
use alter_chat.Base.{
  ℕ, ◌+◌, String, Option, none, some, ◌++◌, ltb, if◌then◌else◌, length, take, drop,
}
use alter_chat.Crypto.{Crypto}
use alter_chat.Base.Text.{as_bytes}

-- `derive_key` of a file, and `derive_room_key`: the password or none, and the salt.
module _ (argon2 : Bytes → Bytes → Bytes) where
  unfoldable pub derive_file_key : String → Bytes → Bytes
  derive_file_key password salt = argon2 (as_bytes password) salt

module _ (C : Crypto) (argon2 : Bytes → Bytes → Bytes) where
  -- `none` is the panic of a failed encryption.
  unfoldable pub encrypt_file_data : Bytes → Bytes → String → Bytes → Option Bytes
  encrypt_file_data salt nonce password plaintext =
      let key = derive_file_key argon2 password salt in
      elim (C.aead_encrypt key nonce plaintext) [
        | none ↦ none
        | some ciphertext ↦ some (salt ++ (nonce ++ ciphertext))
      ]

  unfoldable pub decrypt_file_data : String → Bytes → Result Bytes
  decrypt_file_data password bytes =
      let salt = take 16 bytes in
      let nonce = take 12 (drop 16 bytes) in
      let ciphertext = drop 28 bytes in
      let key = derive_file_key argon2 password salt in
      let res = ok_or (C.aead_decrypt key nonce ciphertext) "Decryption failed (wrong password?)" in
      if ltb (length bytes) (16 + 12) then err "Data too short" else res

-- `derive_room_key`, over PBKDF2 of a password, a salt and a number of rounds.
unfoldable pub derive_room_key : (Bytes → Bytes → ℕ → Bytes) → String → Option String → Bytes
derive_room_key pbkdf2 id none = pbkdf2 (as_bytes "alterchat-open-room") (as_bytes id) 1_000
derive_room_key pbkdf2 id (some pwd) = pbkdf2 (as_bytes pwd) (as_bytes id) 100_000

module _ (C : Crypto) where
  unfoldable pub encrypt_payload : Bytes → Bytes → Bytes → Result Bytes
  encrypt_payload encryption_key nonce plaintext = do
    ciphertext ← ok_or (C.aead_encrypt encryption_key nonce plaintext) "Encryption failed"
    ok (nonce ++ ciphertext)

  unfoldable pub decrypt_payload : Bytes → Bytes → Result Bytes
  decrypt_payload encryption_key payload =
      let nonce = take 12 payload in
      let ciphertext = drop 12 payload in
      let res =
        ok_or (C.aead_decrypt encryption_key nonce ciphertext)
          "Decryption failed (wrong password?)" in
      if ltb (length payload) 12 then err "Payload too short for decryption" else res
