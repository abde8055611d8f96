-- ===== src/Pow.antt =====
-- Proof of work: the challenges of alterchat-core/src/spam.rs and the tokens of
-- alterchat-core/src/pow.rs. The clock is an argument; the endless loop of `mint` takes fuel.
pub mod Bits
pub mod Laws
mod Tests
use alter_chat.Base.Bytes.{Bytes}
use alter_chat.Base.Equality.{◌==◌, string_eq, bytes_eq}
use alter_chat.Base.{
  ℕ, zero, suc, ◌+◌, ◌-◌, ◌*◌, ◌/◌, ◌%◌, ◌^◌, String, Bool, true, false, not, ◌||◌, Option, none,
  some, [], ◌∷◌, ◌++◌, ltb, leb, eqb, if◌then◌else◌, u8, u64, get_elem?, take,
}
use Prim.Native.Nat.{bit_and}
use alter_chat.Crypto.{Crypto}
use alter_chat.Base.Text.{as_bytes}

pub record PowChallenge : Type 0 where
  pub challenge_id : String
  pub difficulty_bits : ℕ
  pub nonce : Bytes

-- `0xff << (8 - rem_bits)`, at the width of a byte.
abbrev pub byte_mask : ℕ → ℕ
byte_mask rem_bits = u8 (0xff * 2 ^ (8 - rem_bits))

-- `iter().any(|b| *b != 0)`
abbrev pub any_nonzero : Bytes → Bool
any_nonzero [] = false
any_nonzero (b ∷ bs) = not (eqb b 0) || any_nonzero bs

-- The test of the byte that holds the last bits; `None` is a hash that is too short.
abbrev pub masked_zero : Option ℕ → ℕ → Bool
masked_zero none rem_bits = false
masked_zero (some b) rem_bits = eqb (bit_and b (byte_mask rem_bits)) 0

unfoldable pub has_leading_zero_bits : Bytes → ℕ → Bool
has_leading_zero_bits bytes bits =
    let full_bytes = bits / 8 in
    let rem_bits = bits % 8 in
    if any_nonzero (take full_bytes bytes)
    then false
    else if eqb rem_bits 0
    then true
    else masked_zero (get_elem? bytes full_bytes) rem_bits

-- The loop of `check_difficulty`, from `bits_checked` on.
unfoldable pub check_from : Bytes → ℕ → ℕ → Bool
check_from [] bits_checked difficulty = true
check_from (byte ∷ hash) bits_checked difficulty =
    let remaining_bits = difficulty - bits_checked in
    if leb difficulty bits_checked
    then true
    else if leb 8 remaining_bits
    then (if not (eqb byte 0) then false else check_from hash (bits_checked + 8) difficulty)
    else eqb (bit_and byte (byte_mask remaining_bits)) 0

unfoldable pub check_difficulty : Bytes → ℕ → Bool
check_difficulty hash difficulty = check_from hash 0 difficulty

-- `u64::to_be_bytes` and `to_le_bytes`
abbrev pub to_be64 : ℕ → Bytes
to_be64 n =
    n / 2 ^ 56 % 256
    ∷ n / 2 ^ 48 % 256
    ∷ n / 2 ^ 40 % 256
    ∷ n / 2 ^ 32 % 256
    ∷ n / 2 ^ 24 % 256
    ∷ n / 2 ^ 16 % 256
    ∷ n / 256 % 256
    ∷ n % 256
    ∷ []

abbrev pub to_le64 : ℕ → Bytes
to_le64 n =
    n % 256
    ∷ n / 256 % 256
    ∷ n / 2 ^ 16 % 256
    ∷ n / 2 ^ 24 % 256
    ∷ n / 2 ^ 32 % 256
    ∷ n / 2 ^ 40 % 256
    ∷ n / 2 ^ 48 % 256
    ∷ n / 2 ^ 56 % 256
    ∷ []

pub record PowToken : Type 0 where
  pub resource : String
  pub timestamp : ℕ
  pub nonce : ℕ

module _ (C : Crypto) where
  unfoldable pub verify_pow : PowChallenge → Bytes → Bool
  verify_pow c solution =
      has_leading_zero_bits (C.sha256 (as_bytes c.challenge_id ++ (c.nonce ++ solution)))
        c.difficulty_bits

  -- The counters from `counter` on, `rounds` of them.
  unfoldable pub solve_from : PowChallenge → ℕ → ℕ → Option Bytes
  solve_from c counter zero = none
  solve_from c counter (suc rounds) =
      let rest = solve_from c (counter + 1) rounds in
      if verify_pow c (to_be64 counter) then some (to_be64 counter) else rest

  unfoldable pub solve_pow : PowChallenge → ℕ → Option Bytes
  solve_pow c max_iters = solve_from c 0 max_iters

  unfoldable pub token_hash : PowToken → Bytes
  token_hash t = C.sha256 (as_bytes t.resource ++ (to_le64 t.timestamp ++ to_le64 t.nonce))

  -- The loop of `PoWToken::mint`, from a nonce on; `none` is that the fuel has run out.
  unfoldable pub mint_from : ℕ → String → ℕ → ℕ → ℕ → Option PowToken
  mint_from zero resource difficulty timestamp nonce = none
  mint_from (suc fuel) resource difficulty timestamp nonce =
      let t : PowToken = record { resource = resource; timestamp = timestamp; nonce = nonce } in
      let rest = mint_from fuel resource difficulty timestamp (u64 (nonce + 1)) in
      if check_difficulty (token_hash t) difficulty then some t else rest

  unfoldable pub mint : ℕ → String → ℕ → ℕ → Option PowToken
  mint fuel resource difficulty timestamp = mint_from fuel resource difficulty timestamp 0

  -- `PoWToken::verify`, at the time `now`.
  unfoldable pub verify : PowToken → String → ℕ → ℕ → ℕ → Bool
  verify t expected_resource difficulty max_age_seconds now =
      if not (t.resource == expected_resource)
      then false
      else if ltb now t.timestamp || ltb max_age_seconds (now - t.timestamp)
      then false
      else check_difficulty (token_hash t) difficulty
