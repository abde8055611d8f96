-- ===== src/Traffic.antt =====
-- Traffic shaping (alterchat-core/src/traffic.rs): padding, chaff, delays and the ban list. The
-- bytes and numbers drawn at random are arguments.
pub mod Padding
pub mod BanList
mod Tests
use mathlib.Core.Option
use alter_chat.Base.Equality.{string_eq}
use alter_chat.Base.Bytes.{Bytes, from_be16, to_be32, from_be32}
use alter_chat.Base.{
  ℕ, ◌+◌, ◌-◌, ◌*◌, ◌%◌, String, Bool, Option, none, some, [], ◌∷◌, ◌++◌, ltb, leb, if◌then◌else◌,
  u8, u32, length, take, replicate,
}
use alter_chat.Base.Dict.{Dict, lookup, insert, remove_key}

-- `BLOCK_SIZE`
abbrev pub block_size : ℕ
block_size = 512

-- `TIME_BLIND_WINDOW_MS`
abbrev pub time_blind_window : ℕ
time_blind_window = 5000

unfoldable pub pad_message : Bytes → Bytes
pad_message xs =
    let pad_len = block_size - length xs % block_size in
    to_be32 (u32 (length xs)) ++ (xs ++ replicate pad_len (u8 pad_len))

-- The length field and what follows it: `None` for fewer than four bytes.
unfoldable pub unpad_message : Bytes → Option Bytes
unpad_message (a ∷ b ∷ c ∷ d ∷ rest) =
    let orig_len = from_be32 a b c d in
    if ltb (length rest + 4) (orig_len + 4) then none else some (take orig_len rest)
unpad_message xs = none

-- `generate_chaff_payload`, with the number and the bytes that it draws.
unfoldable pub generate_chaff_payload : ℕ → Bytes → Bytes
generate_chaff_payload r random = to_be32 (r % u32 (block_size - 4)) ++ random

unfoldable pub random_send_delay : ℕ → ℕ
random_send_delay byte = byte * 8

unfoldable pub time_blind_delay : ℕ → ℕ → ℕ
time_blind_delay a b = from_be16 a b % time_blind_window

pub record PowBanList : Type 0 where
  pub failures : Dict String ℕ

unfoldable pub new : PowBanList
new = record { failures = [] }

-- `failures.get(peer).copied().unwrap_or(0)`
abbrev pub failure_count : String → PowBanList → ℕ
failure_count peer b = Option.get_or (lookup peer b.failures) 0

-- The new list, and whether the peer is to be banned.
unfoldable pub record_failure : String → ℕ → PowBanList → PowBanList × Bool
record_failure peer threshold b =
    let count = u32 (failure_count peer b + 1) in
    (record { failures = insert peer count b.failures }, leb threshold count)

unfoldable pub is_banned : String → ℕ → PowBanList → Bool
is_banned peer threshold b = leb threshold (failure_count peer b)

unfoldable pub reset : String → PowBanList → PowBanList
reset peer b = record { failures = remove_key peer b.failures }
