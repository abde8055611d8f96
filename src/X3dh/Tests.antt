-- ===== src/X3dh/Tests.antt =====
-- The handshake (alterchat-core/src/x3dh.rs) over the toy primitives.
use alter_chat.Base.Result.{ok}
use alter_chat.Base.Bytes.{Bytes}
use alter_chat.Base.{◌≡◌, refl, true, some, [], ◌∷◌, ◌++◌}
use alter_chat.Crypto.{toy, toy-IsLawful}
use alter_chat.X3dh.{
  Kem, KemIsLawful, PreKeyBundle, InitialMessage, initiate_x3dh, generate_prekey_bundle,
  receive_x3dh,
}
use alter_chat.X3dh.Agreement.{receive_x3dh-initiate_x3dh}

-- The secret is what is drawn, and the ciphertext is the same.
abbrev kem : Kem
kem = record {
  ek_has_size = λ ek. true;
  ek_is_valid = λ ek. true;
  ct_has_size = λ ct. true;
  encapsulate = λ ek r. (r, r);
  decapsulate = λ seed ct. ct;
  encapsulation_key = λ seed. seed;
  sign = λ key message. key ++ message;
}

kem-lawful : KemIsLawful kem
kem-lawful = record {
  key_size = λ seed. refl;
  key_valid = λ seed. refl;
  ct_size = λ ek r. refl;
  decapsulate_correct = λ seed r. refl;
}

abbrev bundle : PreKeyBundle
bundle = record {
  identity_key = 3 ∷ [];
  signed_prekey = 4 ∷ [];
  signed_prekey_sig = 6 ∷ 4 ∷ [];
  one_time_prekey = some (7 ∷ []);
  ml_kem_ek = 5 ∷ [];
  ml_kem_ek_sig = 6 ∷ 5 ∷ [];
}

receive_x3dh-initiate_x3dh_example :
    (message : InitialMessage) × (sk : Bytes) × (initiate_x3dh toy kem
        (8 ∷ [])
        (9 ∷ [])
        (1 ∷ [])
        bundle
      ≡ ok (message, sk))
    × (receive_x3dh toy kem (3 ∷ []) (4 ∷ []) (some (7 ∷ [])) (5 ∷ []) message ≡ ok sk)
unfolding generate_prekey_bundle
receive_x3dh-initiate_x3dh_example =
    receive_x3dh-initiate_x3dh toy kem toy-IsLawful kem-lawful (4 ∷ []) (5 ∷ []) (3 ∷ []) (6 ∷ [])
      (some (7 ∷ [])) (8 ∷ []) (9 ∷ []) (1 ∷ [])
