-- ===== src/Node/Quota.antt =====
-- The storage that the node lends to its peers, and the bound on it
-- (alterchat-ui/src-tauri/src/lib.rs).
pub mod Sequence
use alter_chat.Base.{
  ℕ, ◌<◌, ◌^◌, String, true, Option, none, some, List, [], ◌∷◌, ◌≡◌, refl, arith, ◌⊎◌, some_inj,
  sym, ap, ◌∙◌, inl, inr, Bool-cases, Option-cases, length,
}
use alter_chat.Base.Equality.{◌==◌, string_eq}
use alter_chat.Base.Bytes.{Bytes}
use alter_chat.Int.{ℤ, pos, neg_part, ◌≤ℤ◌, ◌+ℤ◌, +ℤ_parts, i64}
use alter_chat.Db.Rows.{ChunkRow, StorageSettings}
use alter_chat.Db.Schema.{Db}
use alter_chat.Db.Table.{upsert}
use alter_chat.Db.Nodes.{chunk_key, sum_sizes, stored_chunk_bytes, save_stored_chunk}
use alter_chat.Db.Settings.{get_storage_settings}
use alter_chat.Sharding.{content_hash}
use alter_chat.Node.Kept.{
  lent, lent_of, lent-admit, lent-trusts, lent_of-serve_file, lent_of-serve_private_message,
  lent_of-serve_ratchet_private_message, lent_of-serve_x3dh_dm, lent_of-save_capability,
  lent_of-serve_onion_forward,
}
use alter_chat.FileTransfer.{
  P2pRequest, file, file_chunk, webrtc_signal, private_message, ratchet_private_message, x3dh_dm,
  capability_announcement, onion_forward, plugin_event, pow_challenge, pow_solution,
}
use alter_chat.Node.Policy.{Verdict, served, refused, rate_limited, trusts}
use alter_chat.Node.Requests.{serve, on_verdict, handle_request}
use alter_chat.Node.Types.{World, Moment, Node}
use alter_chat.Node.Files.{
  serve_file_chunk, chunk_path, chunk_expiry, store_chunk, fits_quota, quota_bytes,
}

-- No row has a size below zero.
unfoldable pub HasSizes : List ChunkRow → Type 0
HasSizes [] = Unit {0}
HasSizes (r ∷ rows) = (neg_part r.size ≡ 0) × HasSizes rows

-- One more row adds no more than its own size.
HasSizes-upsert :
    (f : ChunkRow → ChunkRow) (row : ChunkRow) (rows : List ChunkRow)
    → ((r : ChunkRow) → (f r).size ≡ row.size)
    → neg_part row.size ≡ 0
    → HasSizes rows
    → HasSizes (upsert chunk_key f row rows)
      × (sum_sizes (upsert chunk_key f row rows) ≤ℤ row.size +ℤ sum_sizes rows)
unfolding HasSizes upsert
HasSizes-upsert f row [] sized whole h = ((whole, tt), omega (arith, +ℤ_parts))
HasSizes-upsert f row (r ∷ rows) sized whole (h, hs) =
    let (kept, bound) = HasSizes-upsert f row rows sized whole hs in
    elim (Bool-cases (chunk_key r == chunk_key row)) [
      | inl e ↦ rw e ((rw (sized r) whole, hs), rw (sized r) (omega (arith, +ℤ_parts)))
      | inr e ↦ rw e ((h, kept), omega (arith, +ℤ_parts, bound))
    ]

-- The rows are within the quota that the settings have.
unfoldable pub IsWithinQuota : Db → Type 0
IsWithinQuota db =
    HasSizes db.stored_chunks
    × ((s : StorageSettings)
        → db.storage_settings ≡ some s
        → stored_chunk_bytes db ≤ℤ quota_bytes s.quota_mb)

i64_whole : (size : ℕ) → size < 2 ^ 62 → neg_part (i64 (pos size)) ≡ 0
unfolding i64
i64_whole size small = ground arith

-- A size below 2 ^ 62 in a quota below 2 ^ 62: no sum wraps.
fits_quota_sum :
    (quota_mb : ℤ) (size : ℕ) (db : Db)
    → size < 2 ^ 62
    → quota_bytes quota_mb ≤ℤ pos (2 ^ 62)
    → neg_part (stored_chunk_bytes db) ≡ 0
    → stored_chunk_bytes db ≤ℤ quota_bytes quota_mb
    → fits_quota quota_mb size db ≡ true
    → i64 (pos size) +ℤ stored_chunk_bytes db ≤ℤ quota_bytes quota_mb
unfolding fits_quota i64 ◌+ℤ◌
fits_quota_sum quota_mb size db small quota_small whole within fits = ground arith

sum_sizes_whole : (rows : List ChunkRow) → HasSizes rows → neg_part (sum_sizes rows) ≡ 0
unfolding HasSizes ◌+ℤ◌
sum_sizes_whole [] h = refl
sum_sizes_whole (r ∷ rows) (h, hs) = ground (arith, sum_sizes_whole rows hs)

-- What storing a chunk does to the database: nothing, or one row more in a quota that it fits.
pub store_chunk_cases :
    (W : World) (m : Moment) (db_path : Option String) (transfer_id : String) (index : ℕ)
    (hash : String) (content : Bytes) (db : Db)
    → let (success, written, after) =
        store_chunk W.E.C m db_path transfer_id index hash content db in
      (after ≡ db)
      ⊎ ((s : StorageSettings) × (path : String) × (expires : Option ℤ) × (db.storage_settings
            ≡ some s)
          × (fits_quota s.quota_mb (length content) db ≡ true)
          × (after ≡ save_stored_chunk hash transfer_id index path (length content) expires db))
unfolding store_chunk get_storage_settings
store_chunk_cases W m db_path transfer_id index hash content db =
    elim (Bool-cases (content_hash W.E.C content == hash)) [
      | inr e ↦ inl (ground (arith, e))
      | inl e ↦ elim (Option-cases db.storage_settings) [
        | inl f ↦ inl (ground (arith, e, f))
        | inr (s, f) ↦ elim (Bool-cases (fits_quota s.quota_mb (length content) db)) [
          | inr g ↦ inl (ground (arith, e, f, g))
          | inl g ↦ elim (Option-cases db_path) [
            | inl h ↦ inl (ground (arith, e, f, g, h))
            | inr (p, h) ↦ elim (Bool-cases (m.writable (chunk_path p transfer_id index))) [
              | inr k ↦ inl (ground (arith, e, f, g, h, k))
              | inl k ↦ inr (
                s,
                chunk_path p transfer_id index,
                some (chunk_expiry m.now s.retention_days),
                f,
                g,
                ground (arith, e, f, g, h, k),
              )
            ]
          ]
        ]
      ]
    ]

-- A quota below 2 ^ 62 bytes.
unfoldable pub IsModest : Db → Type 0
IsModest db =
    (s : StorageSettings) → db.storage_settings ≡ some s → quota_bytes s.quota_mb ≤ℤ pos (2 ^ 62)

save_stored_chunk-IsWithinQuota :
    (hash transfer_id path : String) (index size : ℕ) (expires : Option ℤ) (s : StorageSettings)
    (db : Db)
    → size < 2 ^ 62
    → IsModest db
    → IsWithinQuota db
    → db.storage_settings ≡ some s
    → fits_quota s.quota_mb size db ≡ true
    → IsWithinQuota (save_stored_chunk hash transfer_id index path size expires db)
unfolding IsWithinQuota save_stored_chunk IsModest stored_chunk_bytes
save_stored_chunk-IsWithinQuota hash transfer_id path index size expires s db small modest
      (sized, within) there fits =
    let (sized', bound) =
      HasSizes-upsert (λ r. record r { path = path; size = i64 (pos size); expires_at = expires })
        (record {
          chunk_hash = hash;
          content_hash = transfer_id;
          chunk_index = i64 (pos index);
          path = path;
          size = i64 (pos size);
          expires_at = expires;
        })
        db.stored_chunks (λ r. refl) (i64_whole size small) sized in
    let total =
      fits_quota_sum s.quota_mb size db small (modest s there)
        (sum_sizes_whole db.stored_chunks sized) (within s there) fits in
    (
      sized',
      λ t t_there.
          rw (ap (λ (u : StorageSettings). quota_bytes u.quota_mb) (some_inj (sym t_there ∙ there)))
            (omega (arith, bound, total)),
    )

-- Being within the quota, and the quota's size, depend only on the storage node's part.
IsWithinQuota-of_lent :
    (db after : Db) → lent after ≡ lent db → IsWithinQuota db → IsWithinQuota after
unfolding IsWithinQuota lent stored_chunk_bytes
IsWithinQuota-of_lent db after same (sized, within) =
    let chunks : after.stored_chunks ≡ db.stored_chunks =
      ap (λ (p : List ChunkRow × Option StorageSettings). p.0) same in
    let settings : after.storage_settings ≡ db.storage_settings =
      ap (λ (p : List ChunkRow × Option StorageSettings). p.1) same in
    (rw chunks sized, λ s there. rw chunks (within s (sym settings ∙ there)))

IsModest-of_lent : (db after : Db) → lent after ≡ lent db → IsModest db → IsModest after
unfolding IsModest lent
IsModest-of_lent db after same modest s there =
    modest s (ap (λ (p : List ChunkRow × Option StorageSettings). p.1) (sym same) ∙ there)

-- What holds of the storage node's part, if there is a database.
unfoldable pub IsBounded : Option Db → Type 0
IsBounded none = Unit {0}
IsBounded (some db) = IsModest db × IsWithinQuota db

pub IsBounded-of_lent_of :
    (conn after : Option Db) → lent_of after ≡ lent_of conn → IsBounded conn → IsBounded after
unfolding IsBounded
IsBounded-of_lent_of none none same h = tt
IsBounded-of_lent_of none (some after) same h = absurd (ground (arith, same))
IsBounded-of_lent_of (some db) none same h = tt
IsBounded-of_lent_of (some db) (some after) same (modest, within) =
    let kept = some_inj same in
    (IsModest-of_lent db after kept modest, IsWithinQuota-of_lent db after kept within)

-- The bytes of a chunk that a request carries.
unfoldable pub carried : P2pRequest → ℕ
carried (file_chunk transfer_id index total hash content) = length content
carried request = 0

pub store_chunk-IsBounded :
    (W : World) (m : Moment) (db_path : Option String) (transfer_id : String) (index : ℕ)
    (hash : String) (content : Bytes) (db : Db)
    → length content < 2 ^ 62
    → IsBounded (some db)
    → IsBounded (some (store_chunk W.E.C m db_path transfer_id index hash content db).2)
unfolding IsBounded IsModest save_stored_chunk
store_chunk-IsBounded W m db_path transfer_id index hash content db small (modest, within) =
    elim (store_chunk_cases W m db_path transfer_id index hash content db) [
      | inl same ↦ rw same (modest, within)
      | inr (s, path, expires, there, fits, after) ↦ rw after (
        λ t. modest t,
        save_stored_chunk-IsWithinQuota hash transfer_id path index (length content) expires s db
            small modest within there fits,
      )
    ]
