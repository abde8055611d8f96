-- ===== src/Db/Replay.antt =====
-- One-time prekeys are accepted once (`mark_opk_used` and `is_opk_used` of
-- alterchat-ui/src-tauri/src/db.rs).
use alter_chat.Base.Equality.{string_eq, bytes_eq, ==_refl, ◌==◌}
use alter_chat.Base.Result.{ok, err}
use alter_chat.Base.{
  ℕ, Bool, List, String, ◌<>◌, true, false, ◌≡◌, refl, ◌∙◌, arith, none, some, if◌then◌else◌,
}
use alter_chat.Int.{ℤ}
use alter_chat.Db.Json.{Json}
use alter_chat.Db.Table.{find, insert_or_ignore, rows_changed}
use alter_chat.Db.Table.Laws.{count-find, find-upsert}
use alter_chat.Db.Schema.{Db, run_migrations, migrate_v0_to_v1, migrate_v1_to_v2}
use alter_chat.Db.Settings.{
  save_setting, get_peer_settings, save_peer_settings, get_room_settings, save_room_settings,
  save_storage_settings,
}
use alter_chat.Db.Rooms.{
  save_room, save_group, remove_group, save_invite, increment_invite_use, revoke_invite, save_role,
  save_permission_grant, save_trust_edge, mark_invite_revoked,
}
use alter_chat.Db.Messages.{
  index_room_message, add_friend, remove_friend, save_private_message, save_ratchet_state,
  get_private_messages, cleanup_room_search,
}
use alter_chat.Db.Nodes.{
  opk_key, mark_opk_used, is_opk_used, put_capability, save_capability, save_file_manifest,
  save_stored_chunk, delete_stored_chunk, save_plugin_manifest, save_known_peer, cleanup_old_peers,
  save_prekey_bundle,
}
use alter_chat.Db.Steps.{
  Step, Reach, start, next, calls_run_migrations, calls_save_capability, calls_mark_opk_used,
}

is_opk_used-find :
    (id : String) (db : Db)
    → is_opk_used id db ≡ (elim (find opk_key id db.used_opk_ids) [ none ↦ false | some x ↦ true ])
unfolding is_opk_used
is_opk_used-find id db = count-find opk_key id db.used_opk_ids

-- The mark of a prekey succeeds if it is new, and fails if it has been used; either way every prekey
-- that had been used is still used, the marked one is, and no other becomes so.
pub mark_opk_used_lem :
    (now : ℤ) (id peer : String) (db : Db)
    → ((mark_opk_used now id peer db).0
        ≡ (if is_opk_used id db then err ("OPK replay detected: " <> id) else ok tt))
      × ((k : String)
          → is_opk_used k (mark_opk_used now id peer db).1
            ≡ (if id == k then true else is_opk_used k db))
unfolding mark_opk_used rows_changed insert_or_ignore
mark_opk_used_lem now id peer db = (
  ground (arith, is_opk_used-find id db),
  λ k.
      is_opk_used-find k _
      ∙ ground (
        arith,
        is_opk_used-find k db,
        find-upsert opk_key (λ x. x) (record { opk_id = id; peer_id = peer; used_at = now })
            db.used_opk_ids k (λ x. refl),
      ),
)

run_migrations_used : (db : Db) → (run_migrations db).1.used_opk_ids ≡ db.used_opk_ids
unfolding run_migrations migrate_v0_to_v1 migrate_v1_to_v2
run_migrations_used db = ground arith

save_capability_used :
    (json : Json (List String)) (now : ℤ) (id : String) (s r d m : Bool) (c : ℕ) (v : List String)
    (db : Db)
    → (save_capability json now id s r d m c v db).1.used_opk_ids ≡ db.used_opk_ids
unfolding save_capability put_capability
save_capability_used json now id s r d m c v db = ground arith

-- What is used stays used.
Step-used :
    (k : String) {db db' : Db} → Step db db' → is_opk_used k db ≡ true → is_opk_used k db' ≡ true
unfolding save_setting get_peer_settings save_peer_settings get_room_settings save_room_settings
    save_storage_settings save_room save_group remove_group save_invite increment_invite_use
    revoke_invite save_role save_permission_grant save_trust_edge mark_invite_revoked
    index_room_message add_friend remove_friend save_private_message save_ratchet_state
    get_private_messages cleanup_room_search save_file_manifest save_stored_chunk
    delete_stored_chunk save_plugin_manifest save_known_peer cleanup_old_peers save_prekey_bundle
    is_opk_used
Step-used k (calls_mark_opk_used now id peer db) used =
    ground (arith, (mark_opk_used_lem now id peer db).1 k)
Step-used k (calls_run_migrations db) used = ground (arith, run_migrations_used db)
Step-used k (calls_save_capability json now id s r d m c v db) used =
    ground (arith, save_capability_used json now id s r d m c v db)
Step-used k st used = used

Reach-used :
    (k : String) {db db' : Db} → Reach db db' → is_opk_used k db ≡ true → is_opk_used k db' ≡ true
Reach-used k start used = used
Reach-used k (next r st) used = Step-used k st (Reach-used k r used)

-- Once a mark of a prekey has returned, whatever it returned, every later mark of it is refused,
-- whatever has been done with the database in between.
pub mark_opk_used_once :
    (now now' : ℤ) (id peer peer' : String) (db db' : Db)
    → Reach (mark_opk_used now id peer db).1 db'
    → (mark_opk_used now' id peer' db').0 ≡ err ("OPK replay detected: " <> id)
mark_opk_used_once now now' id peer peer' db db' r =
    let used =
      Reach-used id r (ground (arith, (mark_opk_used_lem now id peer db).1 id, ==_refl id)) in
    ground (arith, (mark_opk_used_lem now' id peer' db').0, used)
