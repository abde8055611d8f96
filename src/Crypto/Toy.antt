-- ===== src/Crypto/Toy.antt =====
-- A small lawful instance: sums of bytes stand for keys and tags.
use native.Mathlib.Nat.{add_comm}
use alter_chat.Base.{
  zero, suc, ◌<◌, ℕ, ◌+◌, ◌*◌, ◌%◌, ◌≡◌, refl, ap, Option, none, some, [], ◌∷◌, arith, eqb,
  replicate, if◌then◌else◌,
}
use alter_chat.Base.Bytes.{IsBytes, Bytes}
use alter_chat.Crypto.Interface.{Crypto, IsLawful}

abbrev sum : Bytes → ℕ
sum [] = 0
sum (b ∷ bs) = b + sum bs

abbrev sum? : Option Bytes → ℕ
sum? none = 1
sum? (some b) = sum b

abbrev untag : ℕ → Bytes → Option Bytes
untag t [] = none
untag t (b ∷ bs) = if eqb b t then some bs else none

abbrev pub toy : Crypto
toy = record {
  hkdf = λ salt ikm info. (3 * sum? salt + 5 * sum ikm + sum info) ∷ [];
  diffie_hellman = λ a b. (sum a + sum b) ∷ [];
  public_key = λ a. a;
  aead_encrypt = λ k n p. some ((3 * sum k + sum n) ∷ p);
  aead_decrypt = λ k n c. untag (3 * sum k + sum n) c;
  sha256 = λ b. (sum b % 256) ∷ replicate 31 0;
}

aead_correct :
    (k n p : Bytes) {c : Bytes} → toy.aead_encrypt k n p ≡ some c → toy.aead_decrypt k n c ≡ some p
aead_correct k n p {c} h = ground arith

sum_below : (b : Bytes) → sum b % 256 < 256
sum_below b = omega arith

replicate-IsBytes : (n : ℕ) → IsBytes (replicate n 0)
replicate-IsBytes zero = tt
replicate-IsBytes (suc n) = (omega arith, replicate-IsBytes n)

pub toy-IsLawful : IsLawful toy
toy-IsLawful = record {
  dh_comm = λ a b. ap (λ t. t ∷ []) (add_comm (sum a) (sum b));
  aead_correct = aead_correct;
  length-sha256 = λ b. refl;
  sha256-IsBytes = λ b. (sum_below b, replicate-IsBytes 31);
}
