-- ===== src/Base/Text.antt =====
-- The bytes of a text: its code points in UTF-8 (`str::as_bytes`).
use Prim.Native.Char.{code}
use Prim.Native.String.{String}
use alter_chat.Base.Tests.{ltb, if◌then◌else◌}
use alter_chat.Base.Bytes.{Bytes}
use Prim.Native.Nat.{ℕ, ◌+◌, ◌/◌, ◌%◌}
use mathlib.Core.List.{[], ◌∷◌, ◌++◌}

abbrev continuation : ℕ → ℕ
continuation n = 0x80 + n % 64

abbrev pub utf8 : ℕ → Bytes
utf8 n =
    if ltb n 0x80
    then n ∷ []
    else if ltb n 0x800
    then (0xC0 + n / 64) ∷ continuation n ∷ []
    else if ltb n 0x1_0000
    then (0xE0 + n / 4096) ∷ continuation (n / 64) ∷ continuation n ∷ []
    else (0xF0 + n / 262144) ∷ continuation (n / 4096) ∷ continuation (n / 64) ∷ continuation n ∷ []

abbrev pub as_bytes : String → Bytes
as_bytes String.[] = []
as_bytes (String.◌∷◌ c s) = utf8 (code c) ++ as_bytes s
