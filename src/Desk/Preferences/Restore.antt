-- ===== src/Desk/Preferences/Restore.antt =====
-- What the import of an exported vault restores
-- (alterchat-ui/src-tauri/src/commands/settings.rs).
use alter_chat.Base.{
  String, Option, some, List, [], ◌∷◌, ◌≡◌, refl, arith, length, ap, ◌∙◌, subst, inl, inr,
  Option-cases,
}
use alter_chat.Base.Bytes.{Bytes}
use alter_chat.Base.Result.{ok, Result-cases}
use alter_chat.Base.Action.{>>=-eq-ok}
use alter_chat.Int.{ℤ}
use alter_chat.Crypto.{IsLawful}
use alter_chat.Vault.{encrypt_file_data, decrypt_file_data}
use alter_chat.Vault.RoundTrip.{decrypt_file_data-encrypt_file_data}
use alter_chat.Db.Schema.{Db}
use alter_chat.Db.Settings.{save_setting}
use alter_chat.Db.Messages.{get_friends}
use alter_chat.Db.Rooms.{get_saved_groups}
use alter_chat.Db.Lists.{export_settings}
use alter_chat.Desk.Config.{save_settings}
use alter_chat.Desk.Env.{Env}
use alter_chat.Desk.Session.{AppState, init_db, connect}
use alter_chat.Desk.Preferences.{
  VaultExport, VaultJson, Hex, seal_vault, export_vault_encrypted, import_vault_encrypted,
}

-- What is printed is read back.
pub record HexIsLawful (H : Hex) : Type 0 where
  pub decode-encode : (b : Bytes) → H.decode (H.encode b) ≡ ok b

pub record VaultJsonIsLawful (V : VaultJson) : Type 0 where
  pub from_slice-to_vec :
      (vault : VaultExport) {b : Bytes} → V.to_vec vault ≡ ok b → V.from_slice b ≡ ok vault.settings

-- Nothing but the two tables of settings changes.
save_settings_friends :
    (now : ℤ) (settings : List (String × String)) (db : Db)
    → ((save_settings now settings db).friends ≡ db.friends)
      × ((save_settings now settings db).saved_groups ≡ db.saved_groups)
unfolding save_settings save_setting
save_settings_friends now [] db = (refl, refl)
save_settings_friends now ((key, value) ∷ rest) db =
    save_settings_friends now rest (save_setting now key value db)

module _ (E : Env) (L : IsLawful E.C) (now : ℤ) (V : VaultJson) (VL : VaultJsonIsLawful V) (H : Hex)
    (HL : HexIsLawful H) (argon2 : Bytes → Bytes → Bytes) where
  -- The text of an export is the one of the encrypted vault.
  export_vault_encrypted-eq-ok :
      (salt nonce : Bytes) (password : String) (state : AppState) (db after : Db) {words : String}
      → export_vault_encrypted E V H argon2 salt nonce password state db ≡ (ok (some words), after)
      → (vault : VaultExport) × (plaintext : Bytes) × (bytes : Bytes) × (vault.settings
          ≡ export_settings after)
        × (V.to_vec vault ≡ ok plaintext)
        × (encrypt_file_data E.C argon2 salt nonce password plaintext ≡ some bytes)
        × (H.encode bytes ≡ words)
  unfolding export_vault_encrypted seal_vault
  export_vault_encrypted-eq-ok salt nonce password state db after {words} h =
      let (_, opened, _, read) =
        >>=-eq-ok (connect E.S E.P state) (λ _. seal_vault E V H argon2 salt nonce password) db h in
      let vault : VaultExport = record {
        settings = export_settings opened;
        friends = get_friends opened;
        groups = get_saved_groups opened;
        version = 1;
      } in
      elim (Result-cases (V.to_vec vault)) [
        | inl (e, bad) ↦ absurd (ground (arith, read, bad))
        | inr (plaintext, printed) ↦
            elim (Option-cases (encrypt_file_data E.C argon2 salt nonce password plaintext)) [
              | inl panic ↦ absurd (ground (arith, read, printed, panic))
              | inr (bytes, sealed) ↦ (
                vault,
                plaintext,
                bytes,
                ap export_settings (ground (arith, read, printed, sealed)),
                printed,
                sealed,
                ground (arith, read, printed, sealed),
              )
            ]
      ]

  -- What an import does once everything can be read.
  import_vault_encrypted_read :
      (state : AppState) (other opened : Db) (path key password words : String)
      (bytes plaintext : Bytes) (settings : List (String × String))
      → state.db_path ≡ some path
      → state.db_key ≡ some key
      → H.decode words ≡ ok bytes
      → decrypt_file_data E.C argon2 password bytes ≡ ok plaintext
      → V.from_slice plaintext ≡ ok settings
      → connect E.S E.P state other ≡ (ok tt, opened)
      → import_vault_encrypted E V H argon2 now words password state other
        ≡ (ok tt, save_settings now settings opened)
  unfolding import_vault_encrypted
  import_vault_encrypted_read state other opened path key password words bytes plaintext settings
        has_path has_key decoded plain read conn =
      ground (arith, has_path, has_key, decoded, plain, read, conn)

  -- The import of an exported vault, under the password that it was exported with and into a
  -- database that opens, saves each of the exported settings in the order of the export, and
  -- succeeds; the friends and the groups of the vault are not restored: those of the database stay
  -- (lawful primitives and encodings, a salt of 16 and a nonce of 12 bytes).
  pub import_vault_encrypted-export_vault_encrypted :
      (salt nonce : Bytes) (password words path key : String) (key_path : Option String)
      (state : AppState) (db exported other opened : Db)
      → length salt ≡ 16
      → length nonce ≡ 12
      → export_vault_encrypted E V H argon2 salt nonce password state db
        ≡ (ok (some words), exported)
      → init_db E.S E.P path key other ≡ (ok tt, opened)
      → let state' : AppState = (record {
        db_path = some path;
        db_key = some key;
        key_path = key_path;
      }) in
        let (result, after) = import_vault_encrypted E V H argon2 now words password state' other in
        (result ≡ ok tt)
        × (after ≡ save_settings now (export_settings exported) opened)
        × (after.friends ≡ opened.friends)
        × (after.saved_groups ≡ opened.saved_groups)
  unfolding connect
  import_vault_encrypted-export_vault_encrypted salt nonce password words path key key_path state db
        exported other opened hs hn h opens =
      let (vault, plaintext, bytes, same, printed, sealed, shown) =
        export_vault_encrypted-eq-ok salt nonce password state db exported h in
      let decoded : H.decode words ≡ ok bytes =
        subst (λ w. H.decode w ≡ ok bytes) shown (HL.decode-encode bytes) in
      let plain =
        decrypt_file_data-encrypt_file_data E.C L argon2 salt nonce password plaintext hs hn
          sealed in
      let settings = VL.from_slice-to_vec vault printed in
      let state' : AppState = (record {
        db_path = some path;
        db_key = some key;
        key_path = key_path;
      }) in
      let saved = save_settings now (export_settings exported) opened in
      let ran : import_vault_encrypted E V H argon2 now words password state' other
          ≡ (ok tt, saved) =
        import_vault_encrypted_read state' other opened path key password words bytes plaintext _
          refl refl decoded plain (settings ∙ ap ok same) opens in
      let (friends, groups) = save_settings_friends now (export_settings exported) opened in
      rw ran (refl, refl, friends, groups)
