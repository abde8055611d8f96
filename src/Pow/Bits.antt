-- ===== src/Pow/Bits.antt =====
-- Both tests of a hash against its bits, one by one.
use alter_chat.Base.Table.{passes_below, passes_below_at}
use alter_chat.Base.Bytes.{IsBytes, Bytes}
use alter_chat.Base.{
  ◌*◌, ◌≤◌, ◌∙◌, subst, dec_lt, length, ◌+◌, ap, dec_le, take-append_of_le, take-append_of_ge, ℕ,
  zero, suc, ◌-◌, ◌/◌, ◌%◌, ◌<◌, ◌≡◌, refl, sym, Bool, true, false, not, ◌&&◌, List, [], ◌∷◌, ◌++◌,
  arith, eqb, take,
}
use Prim.Native.Nat.{bit_and}
use alter_chat.Pow.{check_difficulty, has_leading_zero_bits, byte_mask, check_from}

-- The bits of a byte, the highest first, and those of a byte string.
abbrev pub byte_bits : ℕ → List ℕ
byte_bits b =
    b / 128 % 2
    ∷ b / 64 % 2
    ∷ b / 32 % 2
    ∷ b / 16 % 2
    ∷ b / 8 % 2
    ∷ b / 4 % 2
    ∷ b / 2 % 2
    ∷ b % 2
    ∷ []

abbrev pub bits : Bytes → List ℕ
bits [] = []
bits (b ∷ bs) = byte_bits b ++ bits bs

abbrev pub all_zero : List ℕ → Bool
all_zero [] = true
all_zero (x ∷ xs) = eqb x 0 && all_zero xs

abbrev same : Bool → Bool → Bool
same true b = b
same false b = not b

same-eq : (a b : Bool) → same a b ≡ true → a ≡ b
same-eq true b h = sym h
same-eq false true h = cc
same-eq false false h = refl

mask_table :
    passes_below 256 (λ b.
      passes_below 8
        (λ r. same (eqb (bit_and b (byte_mask r)) 0) (all_zero (take r (byte_bits b)))))
    ≡ true
unfolding passes_below
mask_table = refl

-- The mask of `r` bits tests the `r` highest bits of a byte.
mask-bits :
    (b r : ℕ) → b < 256 → r < 8 → eqb (bit_and b (byte_mask r)) 0 ≡ all_zero (take r (byte_bits b))
mask-bits b r hb hr = same-eq _ _ (passes_below_at 8 _ r hr (passes_below_at 256 _ b hb mask_table))

zero-bits : (b : ℕ) → b < 256 → eqb b 0 ≡ all_zero (byte_bits b)
zero-bits b h = ground arith

all_zero-append : (xs ys : List ℕ) → all_zero (xs ++ ys) ≡ (all_zero xs && all_zero ys)
all_zero-append [] ys = refl
all_zero-append (x ∷ xs) ys = ground (arith, all_zero-append xs ys)

take-nil : (n : ℕ) → take {A = ℕ} n [] ≡ []
take-nil zero = refl
take-nil (suc n) = refl

-- From `checked` bits on.
check_from-bits :
    (hash : Bytes) (checked difficulty : ℕ)
    → IsBytes hash
    → check_from hash checked difficulty ≡ all_zero (take (difficulty - checked) (bits hash))
unfolding check_from
check_from-bits [] checked difficulty h = ap all_zero (sym (take-nil (difficulty - checked)))
check_from-bits (b ∷ hash) checked difficulty h = elim (dec_le difficulty checked) [
  | yes done ↦ ground arith
  | no more ↦ elim (dec_le 8 (difficulty - checked)) [
    | yes whole ↦
        let e : difficulty - checked - 8 ≡ difficulty - (checked + 8) = omega arith in
        ground (
          arith,
          take-append_of_ge (difficulty - checked) (byte_bits b) (bits hash) whole,
          all_zero-append (byte_bits b) (take (difficulty - checked - 8) (bits hash)),
          zero-bits b h.0,
          check_from-bits hash (checked + 8) difficulty h.1,
          e,
        )
    | no last ↦ ground (
      arith,
      take-append_of_le (difficulty - checked) (byte_bits b) (bits hash) (omega arith),
      mask-bits b (difficulty - checked) h.0 (omega arith),
    )
  ]
]

-- `check_difficulty` holds exactly when the first `difficulty` bits are zero, or all, if the hash
-- is shorter.
pub check_difficulty-bits :
    (hash : Bytes) (difficulty : ℕ)
    → IsBytes hash
    → check_difficulty hash difficulty ≡ all_zero (take difficulty (bits hash))
unfolding check_difficulty
check_difficulty-bits hash difficulty h =
    check_from-bits hash 0 difficulty h ∙ ap (λ k. all_zero (take k (bits hash))) (omega arith)

-- One byte less, eight bits less.
has_leading_zero_bits-cons :
    (b : ℕ) (bs : Bytes) (n : ℕ)
    → has_leading_zero_bits (b ∷ bs) (n + 8) ≡ (eqb b 0 && has_leading_zero_bits bs n)
unfolding has_leading_zero_bits
has_leading_zero_bits-cons b bs n =
    let q : (n + 8) / 8 ≡ suc (n / 8) = omega arith in
    let r : (n + 8) % 8 ≡ n % 8 = omega arith in rw (q, r) (ground arith)

has_leading_zero_bits-last :
    (b : ℕ) (bs : Bytes) (n : ℕ)
    → b < 256
    → n < 8
    → has_leading_zero_bits (b ∷ bs) n ≡ all_zero (take n (byte_bits b))
unfolding has_leading_zero_bits
has_leading_zero_bits-last b bs n hb hn =
    let q : n / 8 ≡ 0 = omega arith in
    let r : n % 8 ≡ n = omega arith in
    rw (q, r)
      (elim (dec_lt 0 n) [
        | yes some_left ↦ ground (arith, mask-bits b n hb hn)
        | no none_left ↦ let e : n ≡ 0 = omega arith in rw e refl
      ])

has_leading_zero_bits-nil : has_leading_zero_bits [] 0 ≡ true
unfolding has_leading_zero_bits
has_leading_zero_bits-nil = refl

-- `has_leading_zero_bits` holds exactly when the first `n` bits are zero, if the hash has as many.
pub has_leading_zero_bits-bits :
    (hash : Bytes) (n : ℕ)
    → IsBytes hash
    → n ≤ 8 * length hash
    → has_leading_zero_bits hash n ≡ all_zero (take n (bits hash))
has_leading_zero_bits-bits [] n h le = let e : n ≡ 0 = omega arith in rw e has_leading_zero_bits-nil
has_leading_zero_bits-bits (b ∷ hash) n h le = elim (dec_le 8 n) [
  | yes whole ↦
      let e : n ≡ n - 8 + 8 = omega arith in
      let f : n - 8 ≡ n - length (byte_bits b) = refl in
      subst (λ k. has_leading_zero_bits (b ∷ hash) k ≡ all_zero (take n (bits (b ∷ hash)))) (sym e)
        (has_leading_zero_bits-cons b hash (n - 8)
          ∙ ground (
            arith,
            zero-bits b h.0,
            take-append_of_ge n (byte_bits b) (bits hash) whole,
            all_zero-append (byte_bits b) (take (n - 8) (bits hash)),
            has_leading_zero_bits-bits hash (n - 8) h.1 (omega arith),
          ))
  | no last ↦
      has_leading_zero_bits-last b hash n h.0 (omega arith)
      ∙ ap all_zero (sym (take-append_of_le n (byte_bits b) (bits hash) (omega arith)))
]

-- The two modules test a hash alike, for any difficulty that the hash has bits for.
pub check_difficulty-eq-has_leading_zero_bits :
    (hash : Bytes) (difficulty : ℕ)
    → IsBytes hash
    → difficulty ≤ 8 * length hash
    → check_difficulty hash difficulty ≡ has_leading_zero_bits hash difficulty
check_difficulty-eq-has_leading_zero_bits hash difficulty h le =
    check_difficulty-bits hash difficulty h ∙ sym (has_leading_zero_bits-bits hash difficulty h le)
