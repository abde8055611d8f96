-- ===== src/Pluggable/Snowflake.antt =====
-- The Snowflake frames (alterchat-core/src/pluggable.rs): what the receiver reads of a frame.
use alter_chat.Base.Result.{Result, err, ok}
use alter_chat.Base.Bytes.{from_be16-to_be16, Bytes, to_be16}
use alter_chat.Base.{
  take_all, sym, ap, ◌∙◌, [], length-take, ◌^◌, ◌<◌, ◌≡◌, ◌↔◌, ◌++◌, arith, u16, length, take,
  length-append, take-append_of_le,
}
use alter_chat.Pluggable.{snowflake_obfuscate, snowflake_deobfuscate}

-- Whatever the padding, the receiver of a frame reads as many bytes of the data as its length is
-- modulo 2 ^ 16.
pub snowflake_deobfuscate-snowflake_obfuscate :
    (padding xs : Bytes)
    → snowflake_deobfuscate (snowflake_obfuscate padding xs) ≡ ok (take (u16 (length xs)) xs)
unfolding snowflake_deobfuscate snowflake_obfuscate
snowflake_deobfuscate-snowflake_obfuscate padding xs = ground (
  arith,
  take-append_of_le (u16 (length xs)) xs (to_be16 (u16 (length padding)) ++ padding) (omega arith),
  length-append xs (to_be16 (u16 (length padding)) ++ padding),
  from_be16-to_be16 (u16 (length xs)) (omega arith),
)

abbrev get_ok : Result Bytes → Bytes
get_ok (ok xs) = xs
get_ok (err e) = []

-- The receiver of a frame reads the data that was sent if, and only if, it is shorter than 2 ^ 16
-- bytes; the rest of longer data is lost without an error.
pub snowflake_fits :
    (padding xs : Bytes)
    → snowflake_deobfuscate (snowflake_obfuscate padding xs) ≡ ok xs ↔ length xs < 2 ^ 16
snowflake_fits padding xs = (
  (λ h. omega (
    arith,
    length-take (u16 (length xs)) xs,
    ap (λ r. length (get_ok r)) (sym (snowflake_deobfuscate-snowflake_obfuscate padding xs) ∙ h),
  )),
  λ h.
      snowflake_deobfuscate-snowflake_obfuscate padding xs
      ∙ ap ok (ap (λ n. take n xs) (omega arith) ∙ take_all xs),
)
