-- ===== src/Desk/Decimal.antt =====
-- `i64::to_string` and `str::parse::<i64>` of Rust's standard library.
pub mod RoundTrip
use Prim.Native.Char.{Char, code}
use alter_chat.Base.{
  ℕ, Bool, zero, suc, ◌+◌, ◌-◌, ◌*◌, ◌/◌, ◌%◌, ◌^◌, String, ◌<>◌, ◌&&◌, Option, none, some, ltb,
  leb, eqb, if◌then◌else◌,
}
use mathlib.Core.Option
use alter_chat.Int.{ℤ, pos, negsuc}

abbrev pub digit_char : ℕ → Char
digit_char zero = "0"
digit_char (suc zero) = "1"
digit_char (suc (suc zero)) = "2"
digit_char (suc (suc (suc zero))) = "3"
digit_char (suc (suc (suc (suc zero)))) = "4"
digit_char (suc (suc (suc (suc (suc zero))))) = "5"
digit_char (suc (suc (suc (suc (suc (suc zero)))))) = "6"
digit_char (suc (suc (suc (suc (suc (suc (suc zero))))))) = "7"
digit_char (suc (suc (suc (suc (suc (suc (suc (suc zero)))))))) = "8"
digit_char n = "9"

-- The digits of a number in front of a text. `fuel` digits are enough below 10 ^ fuel.
unfoldable pub print_number : ℕ → ℕ → String → String
print_number zero n tail = tail
print_number (suc fuel) n tail =
    let text = String.◌∷◌ (digit_char (n % 10)) tail in
    let all = print_number fuel (n / 10) text in if ltb n 10 then text else all

unfoldable pub print_i64 : ℤ → String
print_i64 (pos n) = print_number 20 n ""
print_i64 (negsuc n) = String.◌∷◌ "-" (print_number 20 (suc n) "")

abbrev pub is_digit : ℕ → Bool
is_digit c = leb 48 c && leb c 57

-- The digits after `acc`, up to a limit.
unfoldable pub parse_digits : ℕ → ℕ → String → Option ℕ
parse_digits limit acc String.[] = some acc
parse_digits limit acc (String.◌∷◌ c s) =
    let next = acc * 10 + (code c - 48) in
    let rest = parse_digits limit next s in
    if is_digit (code c) && leb next limit then rest else none

abbrev pub negate : ℕ → ℤ
negate zero = pos 0
negate (suc n) = negsuc n

-- At least one digit.
unfoldable pub parse_number : ℕ → String → Option ℕ
parse_number limit String.[] = none
parse_number limit s = parse_digits limit 0 s

unfoldable pub parse_i64 : String → Option ℤ
parse_i64 String.[] = none
parse_i64 (String.◌∷◌ c s) =
    if eqb (code c) 45
    then Option.map negate (parse_number (2 ^ 63) s)
    else if eqb (code c) 43
    then Option.map pos (parse_number (2 ^ 63 - 1) s)
    else Option.map pos (parse_number (2 ^ 63 - 1) (String.◌∷◌ c s))
