-- ===== src/Desk/Decimal/RoundTrip.antt =====
-- A printed `i64` parses.
use Prim.Native.Char.{code}
use alter_chat.Base.{
  ℕ, Bool, false, zero, suc, ◌+◌, ◌-◌, ◌/◌, ◌%◌, ◌^◌, ◌≤◌, ◌<◌, String, ◌≡◌, refl, ap, ◌∙◌, some,
  true, arith,
}
use mathlib.Core.Option
use alter_chat.Int.{ℤ, pos, negsuc, IsI64}
use alter_chat.Desk.Decimal.{
  negate, digit_char, print_number, print_i64, parse_digits, parse_number, parse_i64, is_digit,
}

code-digit_char : (d : ℕ) → d < 10 → code (digit_char d) ≡ 48 + d
code-digit_char zero h = refl
code-digit_char (suc zero) h = refl
code-digit_char (suc (suc zero)) h = refl
code-digit_char (suc (suc (suc zero))) h = refl
code-digit_char (suc (suc (suc (suc zero)))) h = refl
code-digit_char (suc (suc (suc (suc (suc zero))))) h = refl
code-digit_char (suc (suc (suc (suc (suc (suc zero)))))) h = refl
code-digit_char (suc (suc (suc (suc (suc (suc (suc zero))))))) h = refl
code-digit_char (suc (suc (suc (suc (suc (suc (suc (suc zero)))))))) h = refl
code-digit_char (suc (suc (suc (suc (suc (suc (suc (suc (suc n))))))))) h = omega arith

parse_digits-digit_char :
    (limit n : ℕ) (t : String)
    → n ≤ limit
    → parse_digits limit (n / 10) (String.◌∷◌ (digit_char (n % 10)) t) ≡ parse_digits limit n t
unfolding parse_digits
parse_digits-digit_char limit n t b = ground (arith, code-digit_char (n % 10) (omega arith))

parse_digits-print_number :
    (limit fuel n : ℕ) (t : String)
    → n < 10 ^ fuel
    → n ≤ limit
    → parse_digits limit 0 (print_number fuel n t) ≡ parse_digits limit n t
unfolding print_number
parse_digits-print_number limit zero n t h b = ap (λ k. parse_digits limit k t) (omega arith)
parse_digits-print_number limit (suc fuel) n t h b = ground (
  arith,
  parse_digits-print_number limit fuel (n / 10) (String.◌∷◌ (digit_char (n % 10)) t) (omega arith)
      (omega arith),
  parse_digits-digit_char limit n t b,
)

starts_with_digit : String → Bool
starts_with_digit String.[] = false
starts_with_digit (String.◌∷◌ c s) = is_digit (code c)

print_number_starts :
    (fuel n : ℕ) (t : String)
    → starts_with_digit t ≡ true
    → starts_with_digit (print_number fuel n t) ≡ true
unfolding print_number starts_with_digit
print_number_starts zero n t h = h
print_number_starts (suc fuel) n t h = ground (
  arith,
  print_number_starts fuel (n / 10) (String.◌∷◌ (digit_char (n % 10)) t),
  code-digit_char (n % 10) (omega arith),
)

parse_number_starts :
    (limit : ℕ) (s : String)
    → starts_with_digit s ≡ true
    → parse_number limit s ≡ parse_digits limit 0 s
unfolding parse_number starts_with_digit
parse_number_starts limit String.[] h = ground arith
parse_number_starts limit (String.◌∷◌ c s) h = refl

parse_i64_starts :
    (s : String)
    → starts_with_digit s ≡ true
    → parse_i64 s ≡ Option.map pos (parse_digits (2 ^ 63 - 1) 0 s)
unfolding parse_i64 parse_number starts_with_digit
parse_i64_starts String.[] h = ground arith
parse_i64_starts (String.◌∷◌ c s) h = ground arith

print_number_digits : (fuel n : ℕ) → starts_with_digit (print_number (suc fuel) n "") ≡ true
unfolding print_number starts_with_digit
print_number_digits fuel n = ground (
  arith,
  print_number_starts fuel (n / 10) (String.◌∷◌ (digit_char (n % 10)) ""),
  code-digit_char (n % 10) (omega arith),
)

parse_i64_minus :
    (s : String) → parse_i64 (String.◌∷◌ "-" s) ≡ Option.map negate (parse_number (2 ^ 63) s)
unfolding parse_i64
parse_i64_minus s = refl

-- An `i64` that is printed parses to itself.
pub parse_i64-print_i64 : (z : ℤ) → IsI64 z → parse_i64 (print_i64 z) ≡ some z
unfolding print_i64 parse_digits
parse_i64-print_i64 (pos n) h = ground (
  arith,
  parse_i64_starts (print_number 20 n "") (print_number_digits 19 n),
  parse_digits-print_number (2 ^ 63 - 1) 20 n "" (omega arith) (omega arith),
)
parse_i64-print_i64 (negsuc n) h =
    parse_i64_minus (print_number 20 (suc n) "")
    ∙ ground (
      arith,
      parse_number_starts (2 ^ 63) (print_number 20 (suc n) "") (print_number_digits 19 (suc n)),
      parse_digits-print_number (2 ^ 63) 20 (suc n) "" (omega arith) (omega arith),
    )
