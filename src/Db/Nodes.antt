-- ===== src/Db/Nodes.antt =====
-- What the database knows of other nodes, files, plugins and prekeys
-- (alterchat-ui/src-tauri/src/db.rs). The time `now` of `now_ms` is an argument; a difference of
-- times wraps as an `i64`.
use alter_chat.Base.{
  ℕ, String, Bool, false, Option, List, [], ◌∷◌, map, length, ltb, eqb, if◌then◌else◌, ◌<>◌,
}
use mathlib.Core.Option
use alter_chat.Base.{take}
use alter_chat.Base.Equality.{bytes_eq, ◌==◌, string_eq, strings_eq}
use alter_chat.Base.Result.{ok, err}
use alter_chat.Base.Action.{Action, lift, modify, ◌>>=◌}
use alter_chat.Int.{ℤ, pos, pos_part, ◌+ℤ◌, ◌-ℤ◌, ltb_ℤ, leb_ℤ, i64}
use alter_chat.Db.Json.{Json}
use alter_chat.Db.Table.{
  find, upsert, insert_or_ignore, rows_changed, select, delete_where, order_by,
}
use alter_chat.Db.Rows.{
  CapabilityRow, ManifestRow, ChunkRow, PluginRow, KnownPeerRow, PreKeyRow, UsedOpkRow,
}
use alter_chat.Db.Schema.{Db}

abbrev pub capability_key : CapabilityRow → String
capability_key r = r.peer_id

abbrev pub manifest_key : ManifestRow → String
manifest_key r = r.content_hash

abbrev pub chunk_key : ChunkRow → String
chunk_key r = r.chunk_hash

abbrev pub plugin_key : PluginRow → String
plugin_key r = r.plugin_id

abbrev pub known_peer_key : KnownPeerRow → List String
known_peer_key r = r.peer_id ∷ r.multiaddr ∷ []

abbrev pub prekey_key : PreKeyRow → String
prekey_key r = r.peer_id

abbrev pub opk_key : UsedOpkRow → String
opk_key r = r.opk_id

-- The statement changes every column of a row that is there but its key.
unfoldable pub put_capability : CapabilityRow → Db → Db
put_capability row db = record db {
  peer_capabilities =
      upsert capability_key (λ r. record row { peer_id = r.peer_id }) row db.peer_capabilities;
}

unfoldable pub save_capability :
    Json (List String)
    → ℤ
    → String
    → Bool
    → Bool
    → Bool
    → Bool
    → ℕ
    → List String
    → Action Db (Unit {0})
save_capability J now peer_id storage_node relay_node dht_server media_relay capacity_score
      protocol_versions =
    do
      protocol_versions_json ← lift (J.to_string protocol_versions)
      modify (
          put_capability (record {
            peer_id = peer_id;
            storage_node = storage_node;
            relay_node = relay_node;
            dht_server = dht_server;
            media_relay = media_relay;
            capacity_score = pos capacity_score;
            protocol_versions_json = protocol_versions_json;
            updated_at = now;
          }))

pub record PeerCapability : Type 0 where
  pub peer_id : String
  pub storage_node : Bool
  pub relay_node : Bool
  pub dht_server : Bool
  pub media_relay : Bool
  pub capacity_score : ℕ
  pub protocol_versions : List String
  pub updated_at : ℤ

-- The score of a row comes from a `u32`, and is one again. What does not parse is an empty list.
unfoldable pub peer_capability : Json (List String) → CapabilityRow → PeerCapability
peer_capability J row = record {
  peer_id = row.peer_id;
  storage_node = row.storage_node;
  relay_node = row.relay_node;
  dht_server = row.dht_server;
  media_relay = row.media_relay;
  capacity_score = pos_part row.capacity_score;
  protocol_versions = elim (J.from_str row.protocol_versions_json) [ ok v ↦ v | err e ↦ [] ];
  updated_at = row.updated_at;
}

unfoldable pub list_active_capabilities : Json (List String) → ℤ → ℤ → Db → List PeerCapability
list_active_capabilities J now max_age_ms db =
    let cutoff = i64 (now -ℤ max_age_ms) in
    map (peer_capability J) (
      order_by (λ a b. ltb_ℤ b.capacity_score a.capacity_score)
        (select (λ r. leb_ℤ cutoff r.updated_at) db.peer_capabilities))

unfoldable pub save_file_manifest : ℤ → String → String → Db → Db
save_file_manifest now content_hash manifest_json db = record db {
  file_manifests =
      upsert manifest_key (λ r. record r { manifest_json = manifest_json })
        (record { content_hash = content_hash; manifest_json = manifest_json; stored_at = now })
        db.file_manifests;
}

unfoldable pub list_file_manifests : Db → List String
list_file_manifests db =
    map (λ r. r.manifest_json) (order_by (λ a b. ltb_ℤ b.stored_at a.stored_at) db.file_manifests)

-- `chunk_index` and `size` have wrapped to an `i64`.
unfoldable pub save_stored_chunk : String → String → ℕ → String → ℕ → Option ℤ → Db → Db
save_stored_chunk chunk_hash content_hash chunk_index path size expires_at db = record db {
  stored_chunks =
      upsert chunk_key
        (λ r. record r { path = path; size = i64 (pos size); expires_at = expires_at })
        (record {
          chunk_hash = chunk_hash;
          content_hash = content_hash;
          chunk_index = i64 (pos chunk_index);
          path = path;
          size = i64 (pos size);
          expires_at = expires_at;
        })
        db.stored_chunks;
}

-- `SUM(size)`
abbrev pub sum_sizes : List ChunkRow → ℤ
sum_sizes [] = pos 0
sum_sizes (r ∷ t) = r.size +ℤ sum_sizes t

unfoldable pub stored_chunk_bytes : Db → ℤ
stored_chunk_bytes db = sum_sizes db.stored_chunks

unfoldable pub chunk_is_expired : ℤ → ChunkRow → Bool
chunk_is_expired now r =
    Option.get_or (Option.map (λ expires. ltb_ℤ expires now) r.expires_at) false

unfoldable pub expired_stored_chunks : ℤ → Db → List (String × String)
expired_stored_chunks now db =
    map (λ r. (r.chunk_hash, r.path)) (select (chunk_is_expired now) db.stored_chunks)

unfoldable pub delete_stored_chunk : String → Db → Db
delete_stored_chunk chunk_hash db = record db {
  stored_chunks = delete_where (λ r. r.chunk_hash == chunk_hash) db.stored_chunks;
}

unfoldable pub save_plugin_manifest : String → String → Bool → String → Db → Db
save_plugin_manifest plugin_id manifest_json enabled granted_capabilities_json db = record db {
  plugin_registry =
      upsert plugin_key
        (λ r. record r {
          manifest_json = manifest_json;
          enabled = enabled;
          granted_capabilities_json = granted_capabilities_json;
        })
        (record {
          plugin_id = plugin_id;
          manifest_json = manifest_json;
          enabled = enabled;
          granted_capabilities_json = granted_capabilities_json;
        })
        db.plugin_registry;
}

unfoldable pub save_known_peer : String → String → ℤ → Db → Db
save_known_peer peer_id multiaddr last_seen db = record db {
  known_peers =
      upsert known_peer_key (λ r. record r { last_seen = last_seen })
        (record { peer_id = peer_id; multiaddr = multiaddr; last_seen = last_seen }) db.known_peers;
}

unfoldable pub load_known_peers : Db → List (String × String)
load_known_peers db =
    map (λ r. (r.peer_id, r.multiaddr))
      (take 200 (order_by (λ a b. ltb_ℤ b.last_seen a.last_seen) db.known_peers))

unfoldable pub cleanup_old_peers : ℤ → ℤ → Db → Db
cleanup_old_peers now max_age_ms db =
    let cutoff = i64 (now -ℤ max_age_ms) in
    record db { known_peers = delete_where (λ r. ltb_ℤ r.last_seen cutoff) db.known_peers }

unfoldable pub save_prekey_bundle : ℤ → String → String → Db → Db
save_prekey_bundle now peer_id bundle_json db = record db {
  prekey_bundles =
      upsert prekey_key (λ r. record r { bundle_json = bundle_json; fetched_at = now })
        (record { peer_id = peer_id; bundle_json = bundle_json; fetched_at = now })
        db.prekey_bundles;
}

unfoldable pub load_prekey_bundle : String → Db → Option String
load_prekey_bundle peer_id db =
    Option.map (λ row. row.bundle_json) (find prekey_key peer_id db.prekey_bundles)

unfoldable pub mark_opk_used : ℤ → String → String → Action Db (Unit {0})
mark_opk_used now opk_id peer_id db =
    let row : UsedOpkRow = record { opk_id = opk_id; peer_id = peer_id; used_at = now } in
    (
      if eqb (rows_changed opk_key row db.used_opk_ids) 0
          then err ("OPK replay detected: " <> opk_id)
          else ok tt,
      record db { used_opk_ids = insert_or_ignore opk_key row db.used_opk_ids },
    )

unfoldable pub is_opk_used : String → Db → Bool
is_opk_used opk_id db = ltb 0 (length (select (λ r. opk_key r == opk_id) db.used_opk_ids))
