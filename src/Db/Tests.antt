-- ===== src/Db/Tests.antt =====
-- The database on small inputs.
use alter_chat.Base.{true, some, ◌≡◌, refl}
use alter_chat.Base.Equality.{string_eq}
use alter_chat.Base.Result.{err}
use alter_chat.Int.{pos}
use alter_chat.Db.Schema.{Db, fresh_db, run_migrations, migrate_v0_to_v1, migrate_v1_to_v2}
use alter_chat.Db.Table.{find, upsert, update_where}
use alter_chat.Db.Settings.{save_setting}
use alter_chat.Db.Rooms.{save_invite, revoke_invite, get_invite_state}
use alter_chat.Db.Nodes.{mark_opk_used}
use alter_chat.Db.Replay.{mark_opk_used_once}
use alter_chat.Db.Registry.{registry, specified, open_op, registry-specified}
use alter_chat.Db.Steps.{start, next, calls_save_setting, calls_save_invite}

abbrev migrated : Db
migrated = (run_migrations fresh_db).1

abbrev marked : Db
marked = (mark_opk_used (pos 1) "k" "alice" migrated).1

mark_opk_used_once_example :
    (mark_opk_used (pos 9) "k" "bob" (save_setting (pos 2) "nick" "me" marked)).0
    ≡ err "OPK replay detected: k"
mark_opk_used_once_example =
    mark_opk_used_once (pos 1) (pos 9) "k" "alice" "bob" migrated
      (save_setting (pos 2) "nick" "me" marked)
      (next start (calls_save_setting (pos 2) "nick" "me" marked))

abbrev with_invite : Db
with_invite = save_invite (pos 1) "i" "room" "token" migrated

registry-specified_example :
    registry with_invite "i" ≡ specified (open_op "i") (registry migrated) "i"
registry-specified_example =
    registry-specified (calls_save_invite (pos 1) "i" "room" "token" migrated) "i"

revoked_there : registry (revoke_invite "i" with_invite) "i" ≡ some (true, pos 0)
unfolding revoke_invite save_invite get_invite_state find update_where upsert run_migrations
    migrate_v1_to_v2 migrate_v0_to_v1 string_eq
revoked_there = refl
