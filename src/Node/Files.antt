-- ===== src/Node/Files.antt =====
-- The requests that carry files (`P2pRequest::File` and `P2pRequest::FileChunk` in the handler of
-- alterchat-ui/src-tauri/src/lib.rs). Each gives what goes out and the database after it, if there is
-- one.
use alter_chat.Base.{
  ℕ, String, ◌<>◌, Bool, true, false, Option, none, some, List, [], ◌∷◌, ◌++◌, length,
  if◌then◌else◌,
}
use alter_chat.Base.Bytes.{Bytes}
use alter_chat.Base.Equality.{◌==◌, string_eq}
use alter_chat.Base.Result.{ok, err}
use alter_chat.Int.{ℤ, pos, ◌+ℤ◌, ◌*ℤ◌, ltb_ℤ, leb_ℤ, i64}
use alter_chat.Crypto.{Crypto}
use alter_chat.Sharding.{content_hash}
use alter_chat.FileTransfer.{file_ack, file_chunk_ack}
use alter_chat.Db.Schema.{Db}
use alter_chat.Db.Settings.{get_storage_settings}
use alter_chat.Db.Nodes.{stored_chunk_bytes, save_stored_chunk}
use alter_chat.Desk.Decimal.{print_number}
use alter_chat.Desk.Profiles.{storage_root_for_db, join}
use alter_chat.Node.Types.{Moment, Effect, emit, respond, write_file, sized, chunk}
use alter_chat.Node.Policy.{trusts}

unfoldable pub serve_file : String → String → Bytes → Option Db → List Effect × Option Db
serve_file peer filename content conn =
    let received =
      emit "file-received" (sized filename (length content))
      ∷ respond (file_ack true "File received")
      ∷ [] in
    elim conn [
      | none ↦ (received, none)
      | some db ↦
          let (allowed, after) = trusts "min_trust_file" peer db in
          (
            if allowed then received else respond (file_ack false "Blocked by trust policy") ∷ [],
            some after,
          )
    ]

-- `n.max(1)`
abbrev pub at_least_one : ℤ → ℤ
at_least_one n = if ltb_ℤ n (pos 1) then pos 1 else n

-- `quota_mb.max(1) * 1024 * 1024`, at 64 bits.
unfoldable pub quota_bytes : ℤ → ℤ
quota_bytes quota_mb = i64 (i64 (at_least_one quota_mb *ℤ pos 1024) *ℤ pos 1024)

unfoldable pub fits_quota : ℤ → ℕ → Db → Bool
fits_quota quota_mb size db =
    leb_ℤ (i64 (stored_chunk_bytes db +ℤ i64 (pos size))) (quota_bytes quota_mb)

unfoldable pub chunk_path : String → String → ℕ → String
chunk_path db_path transfer_id index =
    join (storage_root_for_db db_path)
      (transfer_id <> ("-" <> (print_number 20 index "" <> ".chunk")))

-- `now + retention_days.max(1) * 24 * 60 * 60 * 1000`, at 64 bits.
unfoldable pub chunk_expiry : ℤ → ℤ → ℤ
chunk_expiry now retention_days = i64 (now +ℤ i64 (at_least_one retention_days *ℤ pos 86_400_000))

module _ (C : Crypto) where
  -- A chunk with the right hash is written to a file and to the table if the quota allows it; whether
  -- it was is the result.
  unfoldable pub store_chunk :
      Moment → Option String → String → ℕ → String → Bytes → Db → Bool × List Effect × Db
  store_chunk m db_path transfer_id index hash content db =
      if content_hash C content == hash
      then elim (get_storage_settings db) [
        | err e ↦ (false, [], db)
        | ok settings ↦
            if fits_quota settings.quota_mb (length content) db
            then elim db_path [
              | none ↦ (false, [], db)
              | some p ↦
                  let path = chunk_path p transfer_id index in
                  if m.writable path
                  then (
                    true,
                    write_file path content ∷ [],
                    save_stored_chunk hash transfer_id index path (length content)
                        (some (chunk_expiry m.now settings.retention_days)) db,
                  )
                  else (false, [], db)
            ]
            else (false, [], db)
      ]
      else (false, [], db)

  abbrev answer_chunk : String → ℕ → ℕ → Bool → List Effect
  answer_chunk transfer_id index size success =
      emit "file-chunk-received" (chunk transfer_id index size)
      ∷ respond (file_chunk_ack transfer_id index success)
      ∷ []

  unfoldable pub serve_file_chunk :
      Moment
      → Option String
      → String
      → String
      → ℕ
      → String
      → Bytes
      → Option Db
      → List Effect × Option Db
  serve_file_chunk m db_path peer transfer_id index hash content conn = elim conn [
    | none ↦ (answer_chunk transfer_id index (length content) false, none)
    | some db ↦
        let (allowed, db₁) = trusts "min_trust_file" peer db in
        let (success, written, db₂) = store_chunk m db_path transfer_id index hash content db₁ in
        if allowed
        then (written ++ answer_chunk transfer_id index (length content) success, some db₂)
        else (respond (file_chunk_ack transfer_id index false) ∷ [], some db₁)
  ]
