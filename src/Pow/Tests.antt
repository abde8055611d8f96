-- ===== src/Pow/Tests.antt =====
-- Proof of work (alterchat-core/src/spam.rs and pow.rs) on small inputs.
use alter_chat.Base.Equality.{string_eq}
use alter_chat.Base.{◌≡◌, refl, true, some, [], ◌∷◌, arith}
use alter_chat.Crypto.{toy}
use alter_chat.Pow.{PowToken, check_difficulty, check_from, mint, token_hash}
use alter_chat.Pow.Bits.{check_difficulty-bits}
use alter_chat.Pow.Laws.{mint_finds}

check_difficulty-bits_example : check_difficulty (0 ∷ 15 ∷ []) 12 ≡ true
check_difficulty-bits_example =
    check_difficulty-bits (0 ∷ 15 ∷ []) 12 (omega arith, (omega arith, tt))

mint_finds_example : (t : PowToken) × (mint toy 20 "" 8 250 ≡ some t)
unfolding token_hash check_difficulty check_from
mint_finds_example = mint_finds toy 20 "" 8 250 6 (omega arith) (omega arith) refl
