-- ===== src/Desk/Media.antt =====
-- Files that the user lends to the network (alterchat-ui/src-tauri/src/commands/media.rs, and
-- `cleanup_expired_storage` of alterchat-ui/src-tauri/src/lib.rs). The key and a nonce for each chunk
-- are drawn; serde_json is a parameter. What is written to files and removed is in the result.
pub mod Cleanup
mod Tests
use alter_chat.Base.{ℕ, ◌+◌, String, ◌<>◌, true, false, Option, some, List, [], ◌∷◌, length}
use alter_chat.Base.Bytes.{Bytes}
use alter_chat.Base.Result.{Result, ok_or}
use alter_chat.Base.Action.{Action, pure, lift, gets, modify, raise, ◌>>=◌, ◌>>◌}
use alter_chat.Int.{ℤ, pos, ◌+ℤ◌, ltb_ℤ, i64}
use alter_chat.Sharding.{
  FileManifest, EncryptedChunk, chunk_size, split_chunks, content_hash, encrypt_chunk,
  build_manifest,
}
use alter_chat.Db.Schema.{Db}
use alter_chat.Db.Settings.{get_storage_settings}
use alter_chat.Db.Nodes.{
  stored_chunk_bytes, expired_stored_chunks, delete_stored_chunk, save_stored_chunk,
  save_file_manifest,
}
use alter_chat.Desk.Decimal.{print_number}
use alter_chat.Desk.Env.{Env}
use alter_chat.Desk.Profiles.{join, storage_root_for_db}
use alter_chat.Desk.Session.{AppState, connect}
use alter_chat.Node.Files.{quota_bytes, chunk_expiry}

-- The rows of the expired chunks go; their files are given back.
unfoldable pub delete_chunks : List (String × String) → Db → Db
delete_chunks [] db = db
delete_chunks ((chunk_hash, path) ∷ expired) db =
    delete_chunks expired (delete_stored_chunk chunk_hash db)

unfoldable pub cleanup_expired_storage : ℤ → Db → List (String × String) × Db
cleanup_expired_storage now db =
    let expired = expired_stored_chunks now db in (expired, delete_chunks expired db)

module _ (E : Env) (json : EncryptedChunk → Result Bytes) (manifests : FileManifest → Result String)
    (now : ℤ) (draw : ℕ → Bytes) where
  -- The loop over the chunks, from an index on: the files that are written.
  unfoldable pub store_chunks :
      String → String → Bytes → Option ℤ → ℕ → List Bytes → Action Db (List (String × Bytes))
  store_chunks root hash file_key expires_at index [] = pure []
  store_chunks root hash file_key expires_at index (plaintext ∷ chunks) = do
    encrypted ← lift (encrypt_chunk E.C (draw (1 + index)) index file_key plaintext)
    chunk_json ← lift (json encrypted)
    let path = join root (hash <> ("-" <> (print_number 20 index "" <> ".chunk")))
    modify (
        save_stored_chunk (content_hash E.C encrypted.ciphertext) hash index path
          (length chunk_json) expires_at)
    written ← store_chunks root hash file_key expires_at (index + 1) chunks
    pure ((path, chunk_json) ∷ written)

  -- The quota is asked before what has expired goes, and of the plain bytes.
  unfoldable pub prepare_encrypted_file :
      String → Option String → Bytes → AppState → Action Db (FileManifest × List (String × Bytes))
  prepare_encrypted_file filename mime content state = do
    db_path ← lift (ok_or state.db_path "Not logged in")
    connect E.S E.P state
    found ← gets get_storage_settings
    settings ← lift found
    current_bytes ← gets stored_chunk_bytes
    elim (ltb_ℤ (quota_bytes settings.quota_mb)
        (i64 (current_bytes +ℤ i64 (pos (length content))))) [
          | true ↦ raise "Storage quota exceeded"
          | false ↦ do
            modify (λ db. (cleanup_expired_storage now db).1)
            let file_key = draw 0
            let manifest = record (build_manifest E.C filename mime content chunk_size) {
              encrypted_key = some file_key;
            }
            written ←
                store_chunks (storage_root_for_db db_path) manifest.content_hash file_key
                  (some (chunk_expiry now settings.retention_days)) 0
                  (split_chunks content chunk_size)
            manifest_json ← lift (manifests manifest)
            modify (save_file_manifest now manifest.content_hash manifest_json)
            pure (manifest, written)
        ]
