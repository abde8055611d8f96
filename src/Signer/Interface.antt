-- ===== src/Signer/Interface.antt =====
-- The functions of libp2p's identities, and the laws that callers rely on.
use alter_chat.Base.{Bool, true, ◌≡◌, String}
use alter_chat.Base.Bytes.{Bytes}
use alter_chat.Base.Result.{Result, ok}

-- The text of an error is the library's.
pub record Signer : Type 1 where
  pub Keypair : Type 0
  pub PublicKey : Type 0
  -- `keypair.public()`, `keypair.sign(payload)`, `public_key.verify(payload, signature)`
  pub public : Keypair → PublicKey
  pub sign : Keypair → Bytes → Result Bytes
  pub verify : PublicKey → Bytes → Bytes → Bool
  -- `encode_protobuf`, `PublicKey::try_decode_protobuf`, `PeerId::from(key).to_string()`
  pub encode_protobuf : PublicKey → Bytes
  pub try_decode_protobuf : Bytes → Result PublicKey
  pub peer_id : PublicKey → String

pub record IsLawful (S : Signer) : Type 0 where
  pub verify-sign :
      (k : S.Keypair) (m : Bytes) {s : Bytes} → S.sign k m ≡ ok s → S.verify (S.public k) m s ≡ true
  pub decode-encode : (p : S.PublicKey) → S.try_decode_protobuf (S.encode_protobuf p) ≡ ok p
