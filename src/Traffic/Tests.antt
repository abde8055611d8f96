-- ===== src/Traffic/Tests.antt =====
-- Traffic shaping (alterchat-core/src/traffic.rs) on small inputs.
use alter_chat.Base.Bytes.{Bytes, from_be32}
use alter_chat.Base.{String, ℕ, ◌≡◌, refl, ◌≢◌, [], ◌∷◌, length}
use alter_chat.Traffic.{new, pad_message, unpad_message, is_banned, record_failure}
use alter_chat.Traffic.Padding.{length-pad_message, unpad_message_sound}
use alter_chat.Traffic.BanList.{record_failure-is_banned}

length-pad_message_example : length (pad_message (1 ∷ 2 ∷ 3 ∷ [])) ≡ 516
length-pad_message_example = length-pad_message (1 ∷ 2 ∷ 3 ∷ [])

unpad_message_sound_example :
    (a : ℕ) × (b : ℕ) × (c : ℕ) × (d : ℕ) × (padding : Bytes) × (0 ∷ 0 ∷ 0 ∷ 1 ∷ 5 ∷ 6 ∷ []
      ≡ a ∷ b ∷ c ∷ d ∷ (5 ∷ padding))
    × (1 ≡ from_be32 a b c d)
unfolding unpad_message
unpad_message_sound_example = unpad_message_sound (0 ∷ 0 ∷ 0 ∷ 1 ∷ 5 ∷ 6 ∷ []) (5 ∷ []) refl

abbrev alice : String
alice = "alice"

abbrev mallory : String
mallory = "mallory"

record_failure-is_banned_example :
    let (b', banned) = record_failure mallory 1 new in
    (banned ≡ is_banned mallory 1 b')
    × (alice ≢ mallory → is_banned alice 1 b' ≡ is_banned alice 1 new)
record_failure-is_banned_example = record_failure-is_banned mallory alice 1 1 new
