-- ===== src/Db/Lists.antt =====
-- What is listed in the order of its texts (alterchat-ui/src-tauri/src/db.rs).
use alter_chat.Base.{ℕ, String, Bool, ◌&&◌, ◌||◌, Option, List, map}
use alter_chat.Base.Equality.{◌==◌, string_eq}
use alter_chat.Base.Text.{as_bytes}
use alter_chat.Int.{ℤ, pos_part, ltb_ℤ}
use alter_chat.Envelope.{ltb_bytes}
use alter_chat.Db.Table.{order_by}
use alter_chat.Db.Schema.{Db}

-- The order of SQLite on texts, which is that of their bytes.
abbrev ltb_text : String → String → Bool
ltb_text a b = ltb_bytes (as_bytes a) (as_bytes b)

unfoldable pub export_settings : Db → List (String × String)
export_settings db =
    map (λ r. (r.key, r.value)) (order_by (λ a b. ltb_text a.key b.key) db.app_settings)

pub record StoredChunk : Type 0 where
  pub chunk_hash : String
  pub content_hash : String
  pub chunk_index : ℕ
  pub path : String
  pub size : ℕ
  pub expires_at : Option ℤ

unfoldable pub list_stored_chunks : Db → List StoredChunk
list_stored_chunks db =
    map
      (λ r. record {
        chunk_hash = r.chunk_hash;
        content_hash = r.content_hash;
        chunk_index = pos_part r.chunk_index;
        path = r.path;
        size = pos_part r.size;
        expires_at = r.expires_at;
      })
      (order_by
        (λ a b.
          ltb_text a.content_hash b.content_hash
          || ((a.content_hash == b.content_hash) && ltb_ℤ a.chunk_index b.chunk_index))
        db.stored_chunks)

unfoldable pub list_plugin_manifests : Db → List (String × Bool × String)
list_plugin_manifests db =
    map (λ r. (r.manifest_json, r.enabled, r.granted_capabilities_json))
      (order_by (λ a b. ltb_text a.plugin_id b.plugin_id) db.plugin_registry)
