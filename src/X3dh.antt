-- ===== src/X3dh.antt =====
-- The handshake of alterchat-core/src/x3dh.rs. Random values are arguments; ML-KEM and Ed25519 are
-- parameters.
pub mod Agreement
mod Tests
use alter_chat.Base.Result.{Result, ok, ok_or, map_ok, fail_if, ◌>>=◌, ◌>>◌}
use alter_chat.Base.Bytes.{Bytes}
use alter_chat.Base.{◌≡◌, Bool, true, false, not, Option, none, some, [], ◌++◌}
use alter_chat.Crypto.{Crypto}
use alter_chat.Base.Text.{as_bytes}

-- ML-KEM 768 (ml_kem) on byte strings, and the signature of ed25519_dalek.
pub record Kem : Type 0 where
  -- The size test of an encapsulation key, its validity test, and the size test of a ciphertext.
  pub ek_has_size : Bytes → Bool
  pub ek_is_valid : Bytes → Bool
  pub ct_has_size : Bytes → Bool
  -- `encapsulate` of a key, with what it draws: the ciphertext and the secret.
  pub encapsulate : Bytes → Bytes → Bytes × Bytes
  -- The decapsulation key of a seed, applied to a ciphertext; the encapsulation key of a seed.
  pub decapsulate : Bytes → Bytes → Bytes
  pub encapsulation_key : Bytes → Bytes
  -- `SigningKey::from_bytes(key).sign(message)`
  pub sign : Bytes → Bytes → Bytes

pub record KemIsLawful (K : Kem) : Type 0 where
  pub key_size : (seed : Bytes) → K.ek_has_size (K.encapsulation_key seed) ≡ true
  pub key_valid : (seed : Bytes) → K.ek_is_valid (K.encapsulation_key seed) ≡ true
  pub ct_size : (ek r : Bytes) → K.ct_has_size (K.encapsulate ek r).0 ≡ true
  pub decapsulate_correct :
      (seed r : Bytes)
      → K.decapsulate seed (K.encapsulate (K.encapsulation_key seed) r).0
        ≡ (K.encapsulate (K.encapsulation_key seed) r).1

pub record PreKeyBundle : Type 0 where
  pub identity_key : Bytes
  pub signed_prekey : Bytes
  pub signed_prekey_sig : Bytes
  pub one_time_prekey : Option Bytes
  pub ml_kem_ek : Bytes
  pub ml_kem_ek_sig : Bytes

pub record InitialMessage : Type 0 where
  pub identity_key : Bytes
  pub ephemeral_key : Bytes
  pub ml_kem_ct : Bytes
  pub used_opk : Bool

-- `is_some()`
abbrev pub has_opk : Option Bytes → Bool
has_opk none = false
has_opk (some opk) = true

module _ (C : Crypto) (K : Kem) where
  -- The HKDF of both sides, of the four secrets in the order of the source.
  abbrev derive_sk : Bytes → Bytes → Bytes → Bytes → Bytes → Bytes
  derive_sk dh1 dh2 dh3 dh4 ss_kem =
      C.hkdf none (as_bytes "X3DH_MLKEM768_V1" ++ (dh1 ++ (dh2 ++ (dh3 ++ (dh4 ++ ss_kem)))))
        (as_bytes "AlterChat_X3DH_SK")

  -- `if let Some(opk) = peer_opk`: what the fourth secret adds.
  abbrev opk_secret : Bytes → Option Bytes → Bytes
  opk_secret my_ephemeral none = []
  opk_secret my_ephemeral (some opk) = C.diffie_hellman my_ephemeral opk

  unfoldable pub generate_x3dh_shared_secret : Bytes → Bytes → PreKeyBundle → Bytes → Bytes
  generate_x3dh_shared_secret my_identity my_ephemeral peer_bundle ss_kem =
      let dh1 = C.diffie_hellman my_identity peer_bundle.signed_prekey in
      let dh2 = C.diffie_hellman my_ephemeral peer_bundle.identity_key in
      let dh3 = C.diffie_hellman my_ephemeral peer_bundle.signed_prekey in
      derive_sk dh1 dh2 dh3 (opk_secret my_ephemeral peer_bundle.one_time_prekey) ss_kem

  -- `initiate_x3dh`, with the ephemeral secret and the randomness of the encapsulation.
  unfoldable pub initiate_x3dh :
      Bytes → Bytes → Bytes → PreKeyBundle → Result (InitialMessage × Bytes)
  initiate_x3dh my_ephemeral r my_identity peer_bundle = do
    fail_if (not (K.ek_has_size peer_bundle.ml_kem_ek)) "Invalid ML-KEM EK size"
    fail_if (not (K.ek_is_valid peer_bundle.ml_kem_ek)) "Invalid ML-KEM key"
    let (ct, ss_kem) = K.encapsulate peer_bundle.ml_kem_ek r
    let sk = generate_x3dh_shared_secret my_identity my_ephemeral peer_bundle ss_kem
    ok (
      record {
        identity_key = C.public_key my_identity;
        ephemeral_key = C.public_key my_ephemeral;
        ml_kem_ct = ct;
        used_opk = has_opk peer_bundle.one_time_prekey;
      },
      sk,
    )

  -- `generate_prekey_bundle`, with the secret of the prekey and the seed that it draws.
  unfoldable pub generate_prekey_bundle : Bytes → Bytes → Bytes → Bytes → PreKeyBundle × Bytes
  generate_prekey_bundle spk_secret seed identity_secret ed_signing_key =
      let spk_pub = C.public_key spk_secret in
      let ek = K.encapsulation_key seed in
      (
        record {
          identity_key = C.public_key identity_secret;
          signed_prekey = spk_pub;
          signed_prekey_sig = K.sign ed_signing_key spk_pub;
          one_time_prekey = none;
          ml_kem_ek = ek;
          ml_kem_ek_sig = K.sign ed_signing_key ek;
        },
        seed,
      )

  -- What the fourth secret adds at the receiver.
  abbrev received_opk_secret : Bool → Option Bytes → Bytes → Result Bytes
  received_opk_secret false my_one_time_prekey peer_ek = ok []
  received_opk_secret true my_one_time_prekey peer_ek =
      map_ok (λ opk. C.diffie_hellman opk peer_ek)
        (ok_or my_one_time_prekey "Peer used OPK but we don't have it")

  unfoldable pub receive_x3dh : Bytes → Bytes → Option Bytes → Bytes → InitialMessage → Result Bytes
  receive_x3dh my_identity my_signed_prekey my_one_time_prekey my_seed init_msg = do
    let dh1 = C.diffie_hellman my_signed_prekey init_msg.identity_key
    let dh2 = C.diffie_hellman my_identity init_msg.ephemeral_key
    let dh3 = C.diffie_hellman my_signed_prekey init_msg.ephemeral_key
    dh4 ← received_opk_secret init_msg.used_opk my_one_time_prekey init_msg.ephemeral_key
    fail_if (not (K.ct_has_size init_msg.ml_kem_ct)) "Invalid ML-KEM CT size"
    ok (derive_sk dh1 dh2 dh3 dh4 (K.decapsulate my_seed init_msg.ml_kem_ct))
