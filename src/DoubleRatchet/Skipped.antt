-- ===== src/DoubleRatchet/Skipped.antt =====
-- Looking up, and taking out, a stored message key.
use mathlib.Core.Option
use alter_chat.Base.{
  true, false, inl, inr, Bool-cases, refl, arith, ℕ, List, [], ◌∷◌, Option, none, some, ◌≡◌,
  if◌then◌else◌, position, remove, ◌≢◌, Bool,
}
use alter_chat.Base.Bytes.{Bytes}
use alter_chat.DoubleRatchet.{SkippedKey, is_key_of}

-- The first stored key for a sender key and an index.
unfoldable pub find_key : Bytes → ℕ → List SkippedKey → Option Bytes
find_key d n [] = none
find_key d n (k ∷ ks) = if is_key_of d n k then some k.mk else find_key d n ks

-- `position`, then `remove`.
abbrev pub take_first {ℓ} : {A : Type ℓ} → (A → Bool) → List A → Option (A × List A)
take_first p xs = elim (position p xs) [ none ↦ none | some i ↦ remove xs i ]

take_first-cons {ℓ} :
    {A : Type ℓ} (p : A → Bool) (x : A) (xs : List A)
    → take_first p (x ∷ xs)
      ≡ (if p x then some (x, xs) else Option.map (λ (y, ys). (y, x ∷ ys)) (take_first p xs))
take_first-cons p x xs = ground arith

pub take_first-none :
    (d : Bytes) (n : ℕ) (ks : List SkippedKey)
    → find_key d n ks ≡ none
    → position (is_key_of d n) ks ≡ none
unfolding find_key
take_first-none d n [] h = refl
take_first-none d n (k ∷ ks) h = ground (arith, take_first-none d n ks)

-- Taking a key out leaves the keys of the other indices, and adds none.
pub record IsTaken (d : Bytes) (n : ℕ) (ks rest : List SkippedKey) : Type 0 where
  pub others : (j : ℕ) → j ≢ n → find_key d j rest ≡ find_key d j ks
  pub absent : (j : ℕ) → find_key d j ks ≡ none → find_key d j rest ≡ none

is_key_of_unique :
    (d : Bytes) (n j : ℕ) (k : SkippedKey)
    → is_key_of d n k ≡ true
    → j ≢ n
    → is_key_of d j k ≡ false
unfolding is_key_of
is_key_of_unique d n j k h ne = ground arith

IsTaken-head :
    (d : Bytes) (n : ℕ) (k : SkippedKey) (ks : List SkippedKey)
    → is_key_of d n k ≡ true
    → IsTaken d n (k ∷ ks) ks
unfolding find_key
IsTaken-head d n k ks h = record {
  others = λ j ne. ground (arith, is_key_of_unique d n j k h ne);
  absent = λ j a. ground arith;
}

IsTaken-cons :
    (d : Bytes) (n : ℕ) (k : SkippedKey) (ks rest : List SkippedKey)
    → IsTaken d n ks rest
    → IsTaken d n (k ∷ ks) (k ∷ rest)
unfolding find_key
IsTaken-cons d n k ks rest t = record {
  others = λ j ne. ground (arith, t.others j ne);
  absent = λ j a. ground (arith, t.absent j);
}

pub take_first_lem :
    (d : Bytes) (n : ℕ) (mk : Bytes) (ks : List SkippedKey)
    → find_key d n ks ≡ some mk
    → (k : SkippedKey) × (rest : List SkippedKey) × (take_first (is_key_of d n) ks ≡ some (k, rest))
      × (k.mk ≡ mk)
      × IsTaken d n ks rest
unfolding find_key
take_first_lem d n mk [] h = cc
take_first_lem d n mk (k ∷ ks) h = elim (Bool-cases (is_key_of d n k)) [
  | inl here ↦ (k, ks, ground arith, ground arith, IsTaken-head d n k ks here)
  | inr there ↦
      let (k', rest, taken, same, t) = take_first_lem d n mk ks (ground arith) in
      (
        k',
        k ∷ rest,
        ground (arith, take_first-cons (is_key_of d n) k ks),
        same,
        IsTaken-cons d n k ks rest t,
      )
]
