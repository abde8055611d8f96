-- ===== src/Envelope.antt =====
-- Encryption for a peer, sealed senders, record keys and safety numbers
-- (alterchat-core/src/crypto.rs). Ephemeral secrets and nonces are arguments.
pub mod RoundTrip
mod Tests
use alter_chat.Base.Result.{Result, ok, ok_or, ◌>>=◌, ◌>>◌}
use alter_chat.Base.Bytes.{Bytes}
use alter_chat.Base.{
  ◌≡◌, some, ℕ, zero, suc, ◌+◌, ◌*◌, ◌/◌, ◌%◌, String, ◌<>◌, Bool, true, false, Option, [], ◌∷◌,
  ◌++◌, ltb, if◌then◌else◌, u64, take, drop,
}
use alter_chat.Crypto.{Crypto}
use alter_chat.Base.Text.{as_bytes}
use alter_chat.Governance.Tokens.{hex_digit}

pub record EncryptedPayload : Type 0 where
  pub ephemeral_pubkey : Bytes
  pub nonce : Bytes
  pub ciphertext : Bytes

pub record SealedMessage : Type 0 where
  pub outer : EncryptedPayload

pub record SealedInner : Type 0 where
  pub sender_pubkey : Bytes
  pub sender_peer_id : String
  pub payload : Bytes

-- `bincode` at the sealed part.
pub record SealedCodec : Type 0 where
  pub serialize : SealedInner → Option Bytes
  pub deserialize : Bytes → Option SealedInner

pub record SealedIsLawful (S : SealedCodec) : Type 0 where
  pub read_back :
      (inner : SealedInner) {b : Bytes} → S.serialize inner ≡ some b → S.deserialize b ≡ some inner

-- `<` of two byte strings: the first byte that differs decides.
unfoldable pub ltb_bytes : Bytes → Bytes → Bool
ltb_bytes xs [] = false
ltb_bytes [] (y ∷ ys) = true
ltb_bytes (x ∷ xs) (y ∷ ys) =
    let rest = ltb_bytes xs ys in if ltb x y then true else if ltb y x then false else rest

-- `iter().fold(0, |acc, b| acc * 256 + b)`, at 64 bits.
abbrev fold_bytes : ℕ → Bytes → ℕ
fold_bytes acc [] = acc
fold_bytes acc (b ∷ bs) = fold_bytes (u64 (acc * 256 + b)) bs

-- The last `width` decimal digits: `{:012}` for a number below 10 ^ 12.
abbrev digits : ℕ → ℕ → String
digits zero n = ""
digits (suc width) n = digits width (n / 10) <> hex_digit (n % 10)

-- The block of six bytes.
abbrev safety_block : Bytes → String
safety_block chunk = digits 12 (fold_bytes 0 chunk % 1_000_000_000_000)

module _ (C : Crypto) where
  unfoldable pub encrypt_for_peer : Bytes → Bytes → Bytes → Bytes → Result EncryptedPayload
  encrypt_for_peer ephemeral_secret nonce recipient_pubkey plaintext = do
    let shared_secret = C.diffie_hellman ephemeral_secret recipient_pubkey
    ciphertext ← ok_or (C.aead_encrypt shared_secret nonce plaintext) "Encryption failed"
    ok (record {
      ephemeral_pubkey = C.public_key ephemeral_secret;
      nonce = nonce;
      ciphertext = ciphertext;
    })

  unfoldable pub decrypt_for_me : Bytes → EncryptedPayload → Result Bytes
  decrypt_for_me my_secret payload =
      let shared_secret = C.diffie_hellman my_secret payload.ephemeral_pubkey in
      ok_or (C.aead_decrypt shared_secret payload.nonce payload.ciphertext) "Decryption failed"

  unfoldable pub get_public_key : Bytes → Bytes
  get_public_key secret = C.public_key secret

  unfoldable pub get_dht_mailbox_key : String → Bytes
  get_dht_mailbox_key peer_id = C.sha256 (as_bytes peer_id ++ as_bytes "_offline_inbox")

  unfoldable pub get_dht_pubkey_key : String → Bytes
  get_dht_pubkey_key peer_id = C.sha256 (as_bytes peer_id ++ as_bytes "_offline_pubkey")

  unfoldable pub get_dht_prekey_bundle_key : String → Bytes
  get_dht_prekey_bundle_key peer_id = C.sha256 (as_bytes peer_id ++ as_bytes "_x3dh_prekey_bundle")

  unfoldable pub get_dht_revocation_key : String → Bytes
  get_dht_revocation_key room_id = C.sha256 (as_bytes room_id ++ as_bytes "_revocation_list")

  unfoldable pub derive_safety_number : Bytes → Bytes → String
  derive_safety_number my_pubkey peer_pubkey =
      let (first, second) : Bytes × Bytes =
        (if ltb_bytes my_pubkey peer_pubkey
          then (my_pubkey, peer_pubkey)
          else (peer_pubkey, my_pubkey)) in
      let nums = take 30 (C.sha256 (first ++ (second ++ as_bytes "AlterChat_SafetyNumber_v1"))) in
      safety_block (take 6 nums)
      <> (" "
          <> (safety_block (take 6 (drop 6 nums))
              <> (" "
                  <> (safety_block (take 6 (drop 12 nums))
                      <> (" "
                          <> (safety_block (take 6 (drop 18 nums))
                              <> (" " <> safety_block (take 6 (drop 24 nums)))))))))

  module _ (S : SealedCodec) where
    unfoldable pub sealed_send :
        Bytes → Bytes → Bytes → String → Bytes → Bytes → Result SealedMessage
    sealed_send ephemeral_secret nonce my_secret my_peer_id recipient_pubkey plaintext = do
      let inner : SealedInner = record {
        sender_pubkey = C.public_key my_secret;
        sender_peer_id = my_peer_id;
        payload = plaintext;
      }
      inner_bytes ← ok_or (S.serialize inner) "Serialize error"
      outer ← encrypt_for_peer ephemeral_secret nonce recipient_pubkey inner_bytes
      ok (record { outer = outer })

    unfoldable pub sealed_receive : Bytes → SealedMessage → Result (Bytes × String × Bytes)
    sealed_receive my_secret msg = do
      inner_bytes ← decrypt_for_me my_secret msg.outer
      inner ← ok_or (S.deserialize inner_bytes) "Deserialize error"
      ok (inner.sender_pubkey, inner.sender_peer_id, inner.payload)
