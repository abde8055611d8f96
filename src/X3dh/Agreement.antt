-- ===== src/X3dh/Agreement.antt =====
-- Both parties of the handshake derive the same secret (alterchat-core/src/x3dh.rs).
use alter_chat.Base.Result.{ok}
use alter_chat.Base.Bytes.{Bytes}
use alter_chat.Base.{arith, ◌≡◌, refl, Option, none, some}
use mathlib.Core.Option
use alter_chat.Crypto.{Crypto, IsLawful}
use alter_chat.X3dh.{
  has_opk, Kem, KemIsLawful, PreKeyBundle, InitialMessage, generate_x3dh_shared_secret,
  initiate_x3dh, generate_prekey_bundle, receive_x3dh,
}

module _ (C : Crypto) (K : Kem) (L : IsLawful C) (M : KemIsLawful K) where
  -- The bundle that a party publishes, with the public half of a one-time prekey if it has one.
  abbrev published : Bytes → Bytes → Bytes → Bytes → Option Bytes → PreKeyBundle
  published spk seed identity ed opk = record (generate_prekey_bundle C K spk seed identity ed).0 {
    one_time_prekey = Option.map C.public_key opk;
  }

  -- The first message of a handshake with that bundle.
  abbrev first_message : Bytes → Option Bytes → Bytes → Bytes → Bytes → InitialMessage
  first_message seed opk ephemeral r my_identity = record {
    identity_key = C.public_key my_identity;
    ephemeral_key = C.public_key ephemeral;
    ml_kem_ct = (K.encapsulate (K.encapsulation_key seed) r).0;
    used_opk = has_opk (Option.map C.public_key opk);
  }

  abbrev shared : Bytes → Bytes → Bytes → Bytes → Option Bytes → Bytes → Bytes → Bytes → Bytes
  shared spk seed identity ed opk ephemeral r my_identity =
      generate_x3dh_shared_secret C K my_identity ephemeral (published spk seed identity ed opk)
        (K.encapsulate (K.encapsulation_key seed) r).1

  initiated :
      (spk seed identity ed : Bytes) (opk : Option Bytes) (ephemeral r my_identity : Bytes)
      → initiate_x3dh C K ephemeral r my_identity (published spk seed identity ed opk)
        ≡ ok (
          first_message seed opk ephemeral r my_identity,
          shared spk seed identity ed opk ephemeral r my_identity,
        )
  unfolding initiate_x3dh generate_prekey_bundle
  initiated spk seed identity ed opk ephemeral r my_identity =
      ground (arith, M.key_size seed, M.key_valid seed)

  agreed :
      (spk seed identity ed : Bytes) (opk : Option Bytes) (ephemeral r my_identity : Bytes)
      → receive_x3dh C K identity spk opk seed (first_message seed opk ephemeral r my_identity)
        ≡ ok (shared spk seed identity ed opk ephemeral r my_identity)
  unfolding receive_x3dh generate_x3dh_shared_secret generate_prekey_bundle
  agreed spk seed identity ed none ephemeral r my_identity = ground (
    arith,
    M.ct_size (K.encapsulation_key seed) r,
    M.decapsulate_correct seed r,
    L.dh_comm spk my_identity,
    L.dh_comm identity ephemeral,
    L.dh_comm spk ephemeral,
  )
  agreed spk seed identity ed (some opk) ephemeral r my_identity = ground (
    arith,
    M.ct_size (K.encapsulation_key seed) r,
    M.decapsulate_correct seed r,
    L.dh_comm spk my_identity,
    L.dh_comm identity ephemeral,
    L.dh_comm spk ephemeral,
    L.dh_comm opk ephemeral,
  )

  -- Whoever starts a handshake with a published bundle succeeds, and the receiver that holds the
  -- secrets of the bundle derives the same key from the first message, with a one-time prekey or
  -- without (lawful primitives).
  pub receive_x3dh-initiate_x3dh :
      (spk seed identity ed : Bytes) (opk : Option Bytes) (ephemeral r my_identity : Bytes)
      → (message : InitialMessage) × (sk : Bytes) × (initiate_x3dh C K ephemeral r my_identity
            (published spk seed identity ed opk)
          ≡ ok (message, sk))
        × (receive_x3dh C K identity spk opk seed message ≡ ok sk)
  receive_x3dh-initiate_x3dh spk seed identity ed opk ephemeral r my_identity = (
    first_message seed opk ephemeral r my_identity,
    shared spk seed identity ed opk ephemeral r my_identity,
    initiated spk seed identity ed opk ephemeral r my_identity,
    agreed spk seed identity ed opk ephemeral r my_identity,
  )

module _ (C : Crypto) (K : Kem) where
  -- The signatures of a bundle play no part in a handshake: with any others in their place it goes
  -- the same way.
  pub initiate_x3dh-any_signatures :
      (ephemeral r my_identity : Bytes) (bundle : PreKeyBundle) (sig sig' : Bytes)
      → initiate_x3dh C K ephemeral r my_identity
          (record bundle { signed_prekey_sig = sig; ml_kem_ek_sig = sig' })
        ≡ initiate_x3dh C K ephemeral r my_identity bundle
  unfolding initiate_x3dh generate_x3dh_shared_secret
  initiate_x3dh-any_signatures ephemeral r my_identity bundle sig sig' = refl
