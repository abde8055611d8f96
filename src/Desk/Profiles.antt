-- ===== src/Desk/Profiles.antt =====
-- The files of a profile (alterchat-ui/src-tauri/src/lib.rs). A path is its text, with `/` between
-- its parts.
use Prim.Native.Char.{code}
use alter_chat.Base.{String, ◌<>◌, Bool, true, false, Option, none, some, eqb, if◌then◌else◌}
use mathlib.Core.Option
use alter_chat.Base.Equality.{◌==◌, string_eq}

unfoldable pub strip_prefix : String → String → Option String
strip_prefix String.[] s = some s
strip_prefix (String.◌∷◌ c prefix) String.[] = none
strip_prefix (String.◌∷◌ c prefix) (String.◌∷◌ d s) =
    let rest = strip_prefix prefix s in if eqb (code c) (code d) then rest else none

unfoldable pub strip_suffix : String → String → Option String
strip_suffix suffix String.[] = if suffix == "" then some "" else none
strip_suffix suffix (String.◌∷◌ c s) =
    let rest = strip_suffix suffix s in
    if String.◌∷◌ c s == suffix then some "" else Option.map (String.◌∷◌ c) rest

-- An absolute path.
unfoldable pub has_root : String → Bool
has_root path = elim (strip_prefix "/" path) [ none ↦ false | some rest ↦ true ]

-- `Path::join`: an absolute path takes the place of the whole.
unfoldable pub join : String → String → String
join root path = if has_root path then path else root <> ("/" <> path)

unfoldable pub storage_root_for_db : String → String
storage_root_for_db db_path =
    join "alterchat_storage" (
      Option.get_or (Option.bind (strip_prefix "alterchat_" db_path) (strip_suffix ".db"))
        "default")
