-- ===== src/Pluggable.antt =====
-- The pluggable transports (alterchat-core/src/pluggable.rs). Nonces and paddings are arguments.
pub mod Snowflake
pub mod Mask
mod Tests
use alter_chat.Base.Result.{Result, ok, err}
use alter_chat.Base.Bytes.{Bytes, to_be16, from_be16, to_be32}
use alter_chat.Base.Equality.{◌==◌, string_eq, bytes_eq}
use alter_chat.Base.{
  ℕ, zero, suc, ◌+◌, ◌-◌, min, not, [], ◌∷◌, ◌++◌, ltb, if◌then◌else◌, u16, u32, length, take, drop,
}
use Prim.Native.Nat.{bit_xor}
use alter_chat.Crypto.{Crypto}

-- `a.iter().zip(b.iter()).map(|(d, m)| d ^ m)`
unfoldable pub xor_bytes : Bytes → Bytes → Bytes
xor_bytes (d ∷ ds) (m ∷ ms) = bit_xor d m ∷ xor_bytes ds ms
xor_bytes ds ms = []

-- `SNOWFLAKE_MAGIC`, the letters "SNFL"
abbrev pub snowflake_magic : Bytes
snowflake_magic = 0x53 ∷ 0x4E ∷ 0x46 ∷ 0x4C ∷ []

-- `SnowflakeTransport::obfuscate`, with the padding that it draws.
unfoldable pub snowflake_obfuscate : Bytes → Bytes → Bytes
snowflake_obfuscate padding xs =
    snowflake_magic
    ++ (to_be16 (u16 (length xs)) ++ (xs ++ (to_be16 (u16 (length padding)) ++ padding)))

-- `SnowflakeTransport::deobfuscate`
unfoldable pub snowflake_deobfuscate : Bytes → Result Bytes
snowflake_deobfuscate (m₀ ∷ m₁ ∷ m₂ ∷ m₃ ∷ a ∷ b ∷ rest) =
    let frame_len = from_be16 a b in
    if not ((m₀ ∷ m₁ ∷ m₂ ∷ m₃ ∷ []) == snowflake_magic)
    then err "snowflake: invalid magic bytes"
    else if ltb (6 + length rest) (6 + frame_len)
    then err "snowflake: truncated frame"
    else ok (take frame_len rest)
snowflake_deobfuscate xs = err "snowflake: packet too short"

module _ (C : Crypto) where
  -- The loop of `derive_mask`, with fuel: the mask so far, and the block counter.
  unfoldable pub mask_loop : ℕ → Bytes → Bytes → ℕ → Bytes → ℕ → Bytes
  mask_loop zero key nonce len mask counter = mask
  mask_loop (suc fuel) key nonce len mask counter =
      let block = C.sha256 (key ++ (nonce ++ to_be32 counter)) in
      let rest =
        mask_loop fuel key nonce len (mask ++ take (min (length block) (len - length mask)) block)
          (u32 (counter + 1)) in
      if ltb (length mask) len then rest else mask

  unfoldable pub derive_mask : Bytes → Bytes → ℕ → Bytes
  derive_mask key nonce len = take len (mask_loop len key nonce len [] 0)

  -- `Obfs4Transport::obfuscate`, with the nonce and the padding that it draws.
  unfoldable pub obfs4_obfuscate : Bytes → Bytes → Bytes → Bytes → Bytes
  obfs4_obfuscate key nonce padding xs =
      to_be16 (u16 (length xs))
      ++ (nonce ++ (xor_bytes xs (derive_mask key nonce (length xs)) ++ padding))

  -- What follows the two bytes of the length: the nonce, and the data of that length.
  unfoldable pub unmask : Bytes → ℕ → Bytes → Result Bytes
  unmask key data_len rest =
      let nonce = take 16 rest in
      if ltb (2 + length rest) (2 + 16 + data_len)
      then err "obfs4: truncated payload"
      else ok (xor_bytes (take data_len (drop 16 rest)) (derive_mask key nonce data_len))

  -- `Obfs4Transport::deobfuscate`
  unfoldable pub obfs4_deobfuscate : Bytes → Bytes → Result Bytes
  obfs4_deobfuscate key (a ∷ b ∷ rest) =
      if ltb (2 + length rest) (2 + 16)
      then err "obfs4: packet too short"
      else unmask key (from_be16 a b) rest
  obfs4_deobfuscate key xs = err "obfs4: packet too short"
