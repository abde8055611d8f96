-- ===== src/Db/Json.antt =====
-- `serde_json` on one type, with the texts of its errors. It is a library of the program.
use alter_chat.Base.{String, ◌≡◌}
use alter_chat.Base.Result.{Result, ok}

pub record Json (T : Type 0) : Type 0 where
  pub to_string : T → Result String
  pub from_str : String → Result T

-- What is printed is read back.
pub record JsonIsLawful (T : Type 0) (J : Json T) : Type 0 where
  pub from_str-to_string : (t : T) {s : String} → J.to_string t ≡ ok s → J.from_str s ≡ ok t
