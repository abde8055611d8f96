-- ===== src/Desk/Preferences/Tests.antt =====
-- A vault that is exported and imported (alterchat-ui/src-tauri/src/commands/settings.rs), with a small
-- encoding in place of hexadecimal digits.
use Prim.Native.Char.{code}
use alter_chat.Base.{
  ℕ, ◌+◌, zero, suc, String, none, some, List, [], ◌∷◌, ◌≡◌, refl, ap, sym, arith, inl, inr,
  Bool-cases, ◌++◌, eqb, if◌then◌else◌, replicate,
}
use alter_chat.Base.Bytes.{Bytes}
use alter_chat.Base.Result.{Result, ok, err}
use alter_chat.Base.Equality.{◌==◌, ==_sound, string_eq}
use alter_chat.Int.{pos}
use alter_chat.Crypto.{toy, toy-IsLawful}
use alter_chat.Signer.Toy as Signers
use alter_chat.Desk.Env.{Env}
use alter_chat.Db.Schema.{Db, fresh_db, run_migrations, migrate_v0_to_v1, migrate_v1_to_v2}
use alter_chat.Db.Table.{order_by, upsert, insert_by}
use alter_chat.Vault.{encrypt_file_data, derive_file_key}
use alter_chat.Db.Settings.{save_setting}
use alter_chat.Db.Messages.{new_friend}
use alter_chat.Db.Lists.{export_settings}
use alter_chat.Desk.Config.{save_settings}
use alter_chat.Desk.Session.{AppState, init_db, connect}
use alter_chat.Desk.Preferences.{
  VaultJson, Hex, seal_vault, export_vault_encrypted, import_vault_encrypted,
}
use alter_chat.Desk.Preferences.Restore.{
  HexIsLawful, VaultJsonIsLawful, import_vault_encrypted-export_vault_encrypted,
}

-- A byte is as many strokes, and a stop.
tally : ℕ → String → String
tally zero s = String.◌∷◌ "b" s
tally (suc n) s = String.◌∷◌ "a" (tally n s)

strokes : Bytes → String
strokes [] = ""
strokes (b ∷ bs) = tally b (strokes bs)

count_strokes : ℕ → String → Bytes
count_strokes n String.[] = []
count_strokes n (String.◌∷◌ c s) =
    let more = count_strokes (suc n) s in
    let next = count_strokes 0 s in if eqb (code c) 97 then more else n ∷ next

count_tally : (n m : ℕ) (s : String) → count_strokes n (tally m s) ≡ (n + m) ∷ count_strokes 0 s
unfolding count_strokes tally
count_tally n zero s = ground arith
count_tally n (suc m) s = ground (arith, count_tally (suc n) m s)

count_all : (b : Bytes) → count_strokes 0 (strokes b) ≡ b
unfolding strokes count_strokes
count_all [] = refl
count_all (b ∷ bs) = ground (arith, count_tally 0 b (strokes bs), count_all bs)

abbrev hex : Hex
hex = record { encode = strokes; decode = λ s. ok (count_strokes 0 s) }

hex-IsLawful : HexIsLawful hex
hex-IsLawful = record { decode-encode = λ b. ap ok (count_all b) }

-- One vault is printed: the one whose setting is that the user is al.
only_al : List (String × String) → Result Bytes
only_al [] = err "no setting"
only_al ((key, value) ∷ []) =
    if key == "nick" then (if value == "al" then ok [] else err "no al") else err "no nick"
only_al (setting ∷ other ∷ rest) = err "too many"

only_al_lem :
    (settings : List (String × String)) {b : Bytes}
    → only_al settings ≡ ok b
    → (("nick", "al") ∷ []) ≡ settings
unfolding only_al
only_al_lem [] h = absurd (ground (arith, h))
only_al_lem ((key, value) ∷ []) h = elim (Bool-cases (key == "nick")) [
  | inr other ↦ absurd (ground (arith, h, other))
  | inl same ↦ elim (Bool-cases (value == "al")) [
    | inr not_al ↦ absurd (ground (arith, h, same, not_al))
    | inl al ↦ λ i.
        (sym (==_sound {a = key} {b = "nick"} same) i, sym (==_sound {a = value} {b = "al"} al) i)
        ∷ []
  ]
]
only_al_lem (setting ∷ other ∷ rest) h = absurd (ground (arith, h))

abbrev json : VaultJson
json = record {
  to_vec = λ vault. only_al vault.settings;
  from_slice = λ b. ok (("nick", "al") ∷ []);
}

json-IsLawful : VaultJsonIsLawful json
json-IsLawful = record { from_slice-to_vec = λ vault h. ap ok (only_al_lem vault.settings h) }

-- Nothing is signed, and nothing else is printed.
abbrev env : Env
env = record {
  S = Signers.toy;
  P = record { open_db = λ path key. ok tt; load_or_generate_keypair = λ path. ok 1 };
  C = toy;
  K = record {
    serialize_invite = λ t. none;
    serialize_grant = λ g. none;
    serialize_edge = λ e. none;
    serialize_revocation = λ r. none;
  };
  roles = record { to_string = λ r. err "no role"; from_str = λ s. err "no role" };
  grants = record { to_string = λ g. err "no grant"; from_str = λ s. err "no grant" };
  tokens = record { to_string = λ t. err "no token"; from_str = λ s. err "no token" };
  edges = record { to_string = λ g. err "no edge"; from_str = λ s. err "no edge" };
}

abbrev migrated : Db
migrated = (run_migrations fresh_db).1

-- The old device's database has a name and a friend, the new one's nothing.
abbrev old : Db
old =
    save_setting (pos 1) "nick" "al" (record migrated { friends = new_friend "bo" "Bo" none ∷ [] })

abbrev state : AppState
state = record { db_path = some "a.db"; db_key = some "k"; key_path = none }

abbrev words : String
words = strokes (replicate 16 1 ++ (replicate 12 2 ++ (72 ∷ [])))

import_vault_encrypted-export_vault_encrypted_example :
    let (result, after) =
      import_vault_encrypted env json hex
        (λ p s. s)
        (pos 2)
        words
        "pw"
        (record { db_path = some "b.db"; db_key = some "l"; key_path = none })
        fresh_db in
    (result ≡ ok tt)
    × (after ≡ save_settings (pos 2) (export_settings old) migrated)
    × (after.friends ≡ [])
    × (after.saved_groups ≡ [])
unfolding export_vault_encrypted connect init_db run_migrations save_setting migrate_v1_to_v2
    seal_vault only_al export_settings order_by upsert migrate_v0_to_v1 insert_by string_eq
    encrypt_file_data derive_file_key
import_vault_encrypted-export_vault_encrypted_example =
    import_vault_encrypted-export_vault_encrypted env toy-IsLawful (pos 2) json json-IsLawful hex
      hex-IsLawful (λ p s. s) (replicate 16 1) (replicate 12 2) "pw" words "b.db" "l" none state old
      old fresh_db migrated refl refl refl refl
