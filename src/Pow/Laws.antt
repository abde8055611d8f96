-- ===== src/Pow/Laws.antt =====
-- What solving and minting find, and what verification then says.
use alter_chat.Base.Bytes.{Bytes}
use alter_chat.Base.Equality.{◌==◌, string_eq, bytes_eq}
use alter_chat.Base.{
  dec_lt, ◌-◌, refl, ℕ, zero, suc, ◌+◌, ◌^◌, ◌≤◌, ◌<◌, String, ◌≡◌, sym, subst, inl, inr, true,
  false, ◌&&◌, Option, none, some, arith, ℕ_discrete, leb, u64, Bool-cases,
}
use alter_chat.Crypto.{Crypto}
use alter_chat.Pow.{
  PowChallenge, PowToken, verify_pow, solve_from, solve_pow, to_be64, token_hash, check_difficulty,
  mint_from, mint, verify,
}

module _ (C : Crypto) where
  -- The least counter from `low` on, below `high`, whose bytes solve the challenge.
  abbrev pub IsLeast : PowChallenge → ℕ → ℕ → ℕ → Type 0
  IsLeast c low high k =
      (low ≤ k)
      × (k < high)
      × (verify_pow C c (to_be64 k) ≡ true)
      × ((j : ℕ) → low ≤ j → j < k → verify_pow C c (to_be64 j) ≡ false)

  -- A solution is that of the least counter; no solution means that no counter solves it.
  abbrev pub Solves : PowChallenge → ℕ → ℕ → Option Bytes → Type 0
  Solves c low high none = (j : ℕ) → low ≤ j → j < high → verify_pow C c (to_be64 j) ≡ false
  Solves c low high (some s) = (k : ℕ) × (s ≡ to_be64 k) × IsLeast c low high k

  false_below :
      (c : PowChallenge) (low high : ℕ)
      → verify_pow C c (to_be64 low) ≡ false
      → ((j : ℕ) → low + 1 ≤ j → j < high → verify_pow C c (to_be64 j) ≡ false)
      → (j : ℕ) → low ≤ j
      → j < high
      → verify_pow C c (to_be64 j) ≡ false
  false_below c low high h s j le lt = elim (ℕ_discrete j low) [
    | yes here ↦ subst (λ x. verify_pow C c (to_be64 x) ≡ false) (sym here) h
    | no above ↦ s j (omega arith) lt
  ]

  Solves-step :
      (c : PowChallenge) (low high : ℕ) (r : Option Bytes)
      → verify_pow C c (to_be64 low) ≡ false
      → Solves c (low + 1) high r
      → Solves c low high r
  Solves-step c low high none h s = false_below c low high h s
  Solves-step c low high (some x) h (k, e, l) =
      (k, e, (omega (arith, l.0), l.1, l.2, false_below c low k h l.3))

  solve_from-Solves :
      (c : PowChallenge) (counter rounds : ℕ)
      → Solves c counter (counter + rounds) (solve_from C c counter rounds)
  unfolding solve_from
  solve_from-Solves c counter zero = λ j le lt. absurd (omega arith)
  solve_from-Solves c counter (suc rounds) = elim (Bool-cases (verify_pow C c (to_be64 counter))) [
    | inl found ↦
        subst (Solves c counter (counter + suc rounds)) {x = some (to_be64 counter)} (ground arith)
          (counter, refl, (omega arith, omega arith, found, λ j le lt. absurd (omega arith)))
    | inr next ↦
        subst (Solves c counter (counter + suc rounds)) {x = solve_from C c (counter + 1) rounds}
          (ground arith)
          (Solves-step c counter (counter + suc rounds) (solve_from C c (counter + 1) rounds) next (
            subst (λ n. Solves c (counter + 1) n (solve_from C c (counter + 1) rounds))
              (omega arith) (solve_from-Solves c (counter + 1) rounds)))
  ]

  -- `solve_pow` returns the bytes of the least counter below the limit that solves the challenge,
  -- and `None` only if no counter below the limit does.
  pub solve_pow-Solves :
      (c : PowChallenge) (max_iters : ℕ) → Solves c 0 max_iters (solve_pow C c max_iters)
  unfolding solve_pow
  solve_pow-Solves c max_iters =
      subst (λ n. Solves c 0 n (solve_from C c 0 max_iters)) (omega arith)
        (solve_from-Solves c 0 max_iters)

  abbrev token : String → ℕ → ℕ → PowToken
  token resource timestamp nonce = record {
    resource = resource;
    timestamp = timestamp;
    nonce = nonce;
  }

  mint_from_lem :
      (fuel : ℕ) (resource : String) (difficulty timestamp nonce : ℕ) {t : PowToken}
      → mint_from C fuel resource difficulty timestamp nonce ≡ some t
      → (t.resource ≡ resource)
        × (t.timestamp ≡ timestamp)
        × (check_difficulty (token_hash C t) difficulty ≡ true)
  unfolding mint_from
  mint_from_lem zero resource difficulty timestamp nonce h = absurd (ground arith)
  mint_from_lem (suc fuel) resource difficulty timestamp nonce {t} h =
      elim (Bool-cases
        (check_difficulty (token_hash C (token resource timestamp nonce)) difficulty)) [
          | inl found ↦ ground arith
          | inr next ↦
              mint_from_lem fuel resource difficulty timestamp (u64 (nonce + 1)) (ground arith)
        ]

  -- A minted token verifies exactly for its own resource, from the second in which it was minted
  -- until it is older than the limit.
  pub verify-mint :
      (fuel : ℕ) (resource expected : String) (difficulty timestamp max_age now : ℕ) {t : PowToken}
      → mint C fuel resource difficulty timestamp ≡ some t
      → verify C t expected difficulty max_age now
        ≡ ((resource == expected) && (leb timestamp now && leb now (timestamp + max_age)))
  unfolding mint verify
  verify-mint fuel resource expected difficulty timestamp max_age now h =
      let (r, ts, good) = mint_from_lem fuel resource difficulty timestamp 0 h in ground arith

  mint_from_finds :
      (fuel : ℕ) (resource : String) (difficulty timestamp nonce k : ℕ)
      → k < fuel
      → nonce + k < 2 ^ 64
      → check_difficulty (token_hash C (token resource timestamp (nonce + k))) difficulty ≡ true
      → (t : PowToken) × (mint_from C fuel resource difficulty timestamp nonce ≡ some t)
  unfolding mint_from
  mint_from_finds zero resource difficulty timestamp nonce k lt b good = absurd (omega arith)
  mint_from_finds (suc fuel) resource difficulty timestamp nonce k lt b good =
      elim (Bool-cases
        (check_difficulty (token_hash C (token resource timestamp nonce)) difficulty)) [
          | inl found ↦ (token resource timestamp nonce, ground arith)
          | inr next ↦
              let pos : 0 < k = elim (dec_lt 0 k) [
                | yes p ↦ p
                | no z ↦ absurd (
                    let e : nonce + k ≡ nonce = omega arith in
                    let g : check_difficulty (token_hash C (token resource timestamp nonce))
                          difficulty
                        ≡ true =
                      subst
                        (λ n.
                          check_difficulty (token_hash C (token resource timestamp n)) difficulty
                          ≡ true)
                        e good in
                    cc)
              ] in
              let e : u64 (nonce + 1) + (k - 1) ≡ nonce + k = omega arith in
              let (t, h) =
                mint_from_finds fuel resource difficulty timestamp (u64 (nonce + 1)) (k - 1)
                  (omega arith) (omega arith)
                  (subst
                    (λ n.
                      check_difficulty (token_hash C (token resource timestamp n)) difficulty
                      ≡ true)
                    (sym e) good) in
              (t, ground arith)
        ]

  -- The loop of `mint` ends when some nonce meets the difficulty: fuel above that nonce is enough.
  pub mint_finds :
      (fuel : ℕ) (resource : String) (difficulty timestamp k : ℕ)
      → k < fuel
      → k < 2 ^ 64
      → check_difficulty (token_hash C (token resource timestamp k)) difficulty ≡ true
      → (t : PowToken) × (mint C fuel resource difficulty timestamp ≡ some t)
  unfolding mint
  mint_finds fuel resource difficulty timestamp k lt b good =
      mint_from_finds fuel resource difficulty timestamp 0 k lt (omega arith) (
        subst (λ n. check_difficulty (token_hash C (token resource timestamp n)) difficulty ≡ true)
          (omega arith) good)
