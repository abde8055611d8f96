-- ===== src/Pluggable/Tests.antt =====
-- The pluggable transports (alterchat-core/src/pluggable.rs) on small inputs.
use alter_chat.Base.Result.{ok}
use alter_chat.Base.{◌≡◌, [], ◌∷◌, length}
use alter_chat.Crypto.{toy, toy-IsLawful}
use alter_chat.Pluggable.{snowflake_obfuscate, snowflake_deobfuscate, derive_mask}
use alter_chat.Pluggable.Snowflake.{snowflake_deobfuscate-snowflake_obfuscate}
use alter_chat.Pluggable.Mask.{length-derive_mask}

snowflake_deobfuscate-snowflake_obfuscate_example :
    snowflake_deobfuscate (snowflake_obfuscate (9 ∷ []) (1 ∷ 2 ∷ [])) ≡ ok (1 ∷ 2 ∷ [])
snowflake_deobfuscate-snowflake_obfuscate_example =
    snowflake_deobfuscate-snowflake_obfuscate (9 ∷ []) (1 ∷ 2 ∷ [])

length-derive_mask_example : length (derive_mask toy (7 ∷ []) (8 ∷ []) 40) ≡ 40
length-derive_mask_example = length-derive_mask toy toy-IsLawful (7 ∷ []) (8 ∷ []) 40
