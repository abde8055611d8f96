-- ===== src/Signer/Toy.antt =====
-- A small lawful instance: a key is a number, a signature the key before the message.
use alter_chat.Base.{sym, ap, ◌∙◌, ℕ, [], ◌∷◌, ◌≡◌, true, refl, eqb, if◌then◌else◌, String}
use alter_chat.Base.Bytes.{Bytes}
use alter_chat.Base.Equality.{string_eq, ==_refl, ◌==◌, bytes_eq}
use alter_chat.Base.Result.{ok_inj, Result, ok, err}
use alter_chat.Signer.Interface.{Signer, IsLawful}

abbrev decode : Bytes → Result ℕ
decode (p ∷ []) = ok p
decode bytes = err "BadPublicKey"

abbrev name_of : ℕ → String
name_of p = if eqb p 1 then "alice" else "bob"

abbrev pub toy : Signer
toy = record {
  Keypair = ℕ;
  PublicKey = ℕ;
  public = λ k. k;
  sign = λ k m. ok (k ∷ m);
  verify = λ p m s. s == (p ∷ m);
  encode_protobuf = λ p. p ∷ [];
  try_decode_protobuf = decode;
  peer_id = name_of;
}

verify-sign :
    (k : ℕ) (m : Bytes) {s : Bytes} → toy.sign k m ≡ ok s → toy.verify (toy.public k) m s ≡ true
verify-sign k m {s} h = ap (λ t. t == (k ∷ m)) (sym (ok_inj h)) ∙ ==_refl (k ∷ m)

pub toy-IsLawful : IsLawful toy
toy-IsLawful = record { verify-sign = verify-sign; decode-encode = λ p. refl }
