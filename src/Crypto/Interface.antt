-- ===== src/Crypto/Interface.antt =====
-- The functions of the cryptographic libraries, and the laws that callers rely on.
use alter_chat.Base.{◌≡◌, Option, some}
use alter_chat.Base.{length}
use alter_chat.Base.Bytes.{Bytes, IsBytes}

pub record Crypto : Type 0 where
  -- `Hkdf::<Sha256>::new(salt, ikm)`, then `expand(info)` to 32 bytes, which cannot fail.
  pub hkdf : Option Bytes → Bytes → Bytes → Bytes
  -- `StaticSecret::diffie_hellman`, and `PublicKey::from`.
  pub diffie_hellman : Bytes → Bytes → Bytes
  pub public_key : Bytes → Bytes
  -- `Aes256Gcm::new(key).encrypt(nonce, plaintext)` and `decrypt(nonce, ciphertext)`.
  pub aead_encrypt : Bytes → Bytes → Bytes → Option Bytes
  pub aead_decrypt : Bytes → Bytes → Bytes → Option Bytes
  pub sha256 : Bytes → Bytes

pub record IsLawful (C : Crypto) : Type 0 where
  pub dh_comm :
      (a b : Bytes) → C.diffie_hellman a (C.public_key b) ≡ C.diffie_hellman b (C.public_key a)
  pub aead_correct :
      (k n p : Bytes) {c : Bytes} → C.aead_encrypt k n p ≡ some c → C.aead_decrypt k n c ≡ some p
  pub length-sha256 : (b : Bytes) → length (C.sha256 b) ≡ 32
  pub sha256-IsBytes : (b : Bytes) → IsBytes (C.sha256 b)
