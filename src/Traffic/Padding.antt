-- ===== src/Traffic/Padding.antt =====
-- The padded form of a message: its length, the round trip, and what sets it apart from chaff.
use alter_chat.Base.Bytes.{from_be32-to_be32, Bytes, from_be32}
use alter_chat.Base.{
  ◌%◌, [], arith, u8, u32, drop, replicate, length-append, length-replicate, take-append_self,
  take-append-drop, length-take, ℕ, ◌+◌, ◌-◌, ◌*◌, ◌/◌, ◌^◌, ◌<◌, ◌≡◌, ◌≢◌, some, ◌∷◌, ◌++◌, length,
}
use alter_chat.Traffic.{block_size, pad_message, unpad_message, generate_chaff_payload}

-- A message of less than 2^32 bytes is recovered from its padded form.
pub unpad_message-pad_message :
    (xs : Bytes) → length xs < 2 ^ 32 → unpad_message (pad_message xs) ≡ some xs
unfolding pad_message unpad_message
unpad_message-pad_message xs h = ground (
  arith,
  from_be32-to_be32 (u32 (length xs)) (omega arith),
  length-append xs
      (replicate (block_size - length xs % block_size) (u8 (block_size - length xs % block_size))),
  take-append_self xs
      (replicate (block_size - length xs % block_size) (u8 (block_size - length xs % block_size))),
)

-- A padded message is four bytes longer than a positive multiple of the block size, the least that
-- is above the length of the message.
pub length-pad_message :
    (xs : Bytes) → length (pad_message xs) ≡ 4 + block_size * (length xs / block_size + 1)
unfolding pad_message
length-pad_message xs = omega (
  arith,
  length-append xs
      (replicate (block_size - length xs % block_size) (u8 (block_size - length xs % block_size))),
  length-replicate (block_size - length xs % block_size) (u8 (block_size - length xs % block_size)),
)

-- No padded message has the length of a chaff payload, whatever is drawn for it.
pub pad_message_ne_chaff :
    (xs random : Bytes) (r : ℕ)
    → length random ≡ block_size - 4
    → length (pad_message xs) ≢ length (generate_chaff_payload r random)
unfolding generate_chaff_payload
pad_message_ne_chaff xs random r h e = omega (arith, length-pad_message xs, e)

-- What `unpad_message` returns is a part of its input: after a field of four bytes that states
-- its length come its bytes, and then the padding.
pub unpad_message_sound :
    (ys xs : Bytes)
    → unpad_message ys ≡ some xs
    → (a : ℕ) × (b : ℕ) × (c : ℕ) × (d : ℕ) × (padding : Bytes) × (ys
        ≡ a ∷ b ∷ c ∷ d ∷ (xs ++ padding))
      × (length xs ≡ from_be32 a b c d)
unfolding unpad_message
unpad_message_sound [] xs h = cc
unpad_message_sound (a ∷ []) xs h = cc
unpad_message_sound (a ∷ b ∷ []) xs h = cc
unpad_message_sound (a ∷ b ∷ c ∷ []) xs h = cc
unpad_message_sound (a ∷ b ∷ c ∷ d ∷ rest) xs h = (
  a,
  b,
  c,
  d,
  drop (from_be32 a b c d) rest,
  ground (arith, take-append-drop (from_be32 a b c d) rest),
  ground (arith, length-take (from_be32 a b c d) rest),
)
