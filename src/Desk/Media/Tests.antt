-- ===== src/Desk/Media/Tests.antt =====
-- The removal of expired chunks on a small table (alterchat-ui/src-tauri/src/lib.rs).
use alter_chat.Base.{some, none, [], ◌∷◌, ◌≡◌, String}
use alter_chat.Int.{pos}
use alter_chat.Db.Rows.{ChunkRow}
use alter_chat.Db.Table.{delete_where}
use alter_chat.Db.Schema.{Db, fresh_db}
use alter_chat.Desk.Media.{cleanup_expired_storage}
use alter_chat.Base.Member.{In}
use alter_chat.Desk.Media.Cleanup.{is_listed, IsExpired, cleanup_expired_storage_lem}

abbrev old : ChunkRow
old = record {
  chunk_hash = "a";
  content_hash = "file";
  chunk_index = pos 0;
  path = "a.chunk";
  size = pos 3;
  expires_at = some (pos 4);
}

abbrev lent : Db
lent = record fresh_db {
  stored_chunks = old ∷ record old { chunk_hash = "b"; path = "b.chunk"; expires_at = none } ∷ [];
}

cleanup_expired_storage_lem_example :
    let (files, after) = cleanup_expired_storage (pos 9) lent in
    ((e : String × String)
      → In e files
      → (r : ChunkRow) × In r lent.stored_chunks
        × IsExpired (pos 9) r
        × ((r.chunk_hash, r.path) ≡ e))
    × ((r : ChunkRow)
        → In r lent.stored_chunks
        → IsExpired (pos 9) r
        → In (r.chunk_hash, r.path) files)
    × ((r : ChunkRow) → In r after.stored_chunks → ¬ IsExpired (pos 9) r)
    × (after ≡ record lent { stored_chunks = delete_where (is_listed files) lent.stored_chunks })
cleanup_expired_storage_lem_example = cleanup_expired_storage_lem (pos 9) lent
