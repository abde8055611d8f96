-- ===== src/Db/Registry.antt =====
-- The invitations of the database as an abstract registry, which forgets rooms, tokens, times and the
-- order of the rows (alterchat-ui/src-tauri/src/db.rs).
use alter_chat.Base.Equality.{string_eq, bytes_eq, ◌==◌}
use alter_chat.Base.{
  ℕ, Bool, List, String, true, false, ◌≡◌, refl, subst, sym, arith, none, some, if◌then◌else◌,
  Option,
}
use mathlib.Core.Option
use alter_chat.Int.{ℤ, pos, ◌+ℤ◌, ◌≤ℤ◌, +ℤ_parts}
use alter_chat.Db.Json.{Json}
use alter_chat.Db.Table.Laws.{find-upsert, find-update_where}
use alter_chat.Db.Schema.{Db, run_migrations, migrate_v0_to_v1, migrate_v1_to_v2}
use alter_chat.Db.Settings.{
  save_setting, get_peer_settings, save_peer_settings, get_room_settings, save_room_settings,
  save_storage_settings,
}
use alter_chat.Db.Rooms.{
  invite_key, get_invite_state, save_room, save_group, remove_group, save_invite,
  increment_invite_use, revoke_invite, save_role, save_permission_grant, save_trust_edge,
  mark_invite_revoked,
}
use alter_chat.Db.Messages.{
  index_room_message, add_friend, remove_friend, save_private_message, save_ratchet_state,
  get_private_messages, cleanup_room_search,
}
use alter_chat.Db.Nodes.{
  mark_opk_used, put_capability, save_capability, save_file_manifest, save_stored_chunk,
  delete_stored_chunk, save_plugin_manifest, save_known_peer, cleanup_old_peers, save_prekey_bundle,
}
use alter_chat.Db.Steps.{
  Reach, start, next, Step, calls_run_migrations, calls_save_invite, calls_increment_invite_use,
  calls_revoke_invite, calls_save_capability,
}

-- What is known of an invitation: whether it is revoked, and how often it has been used.
abbrev pub Registry : Type 0
Registry = String → Option (Bool × ℤ)

abbrev pub registry : Db → Registry
registry db id = get_invite_state id db

-- The operations of a registry, and the change that each makes: a new invitation is not revoked and
-- not used; saving one again changes nothing.
pub data Op : Type 0 where
  open_op : String → Op
  revoke_op : String → Op
  use_op : String → Op
  other_op : Op

abbrev opened : Option (Bool × ℤ) → Option (Bool × ℤ)
opened none = some (false, pos 0)
opened (some s) = some s

abbrev on : String → (Option (Bool × ℤ) → Option (Bool × ℤ)) → Registry → Registry
on id change s k = if id == k then change (s k) else s k

abbrev pub specified : Op → Registry → Registry
specified (open_op id) = on id opened
specified (revoke_op id) = on id (Option.map (λ (revoked, uses). (true, uses)))
specified (use_op id) = on id (Option.map (λ (revoked, uses). (revoked, uses +ℤ pos 1)))
specified other_op = λ s. s

-- The operation of the registry that a step of the database stands for.
abbrev pub op_of : {db db' : Db} → Step db db' → Op
op_of (calls_save_invite now id room token db) = open_op id
op_of (calls_revoke_invite id db) = revoke_op id
op_of (calls_increment_invite_use id db) = use_op id
op_of st = other_op

run_migrations-room_invites : (db : Db) → (run_migrations db).1.room_invites ≡ db.room_invites
unfolding run_migrations migrate_v0_to_v1 migrate_v1_to_v2
run_migrations-room_invites db = ground arith

save_capability-room_invites :
    (json : Json (List String)) (now : ℤ) (id : String) (s r d m : Bool) (c : ℕ) (v : List String)
    (db : Db)
    → (save_capability json now id s r d m c v db).1.room_invites ≡ db.room_invites
unfolding save_capability put_capability
save_capability-room_invites json now id s r d m c v db = ground arith

-- Every operation of the database does to the registry what the registry's own operation does.
pub registry-specified :
    {db db' : Db} (st : Step db db') (k : String)
    → registry db' k ≡ specified (op_of st) (registry db) k
unfolding save_setting get_peer_settings save_peer_settings get_room_settings save_room_settings
    save_storage_settings save_room save_group remove_group save_invite increment_invite_use
    revoke_invite save_role save_permission_grant save_trust_edge mark_invite_revoked
    index_room_message add_friend remove_friend save_private_message save_ratchet_state
    get_private_messages cleanup_room_search save_file_manifest save_stored_chunk
    delete_stored_chunk save_plugin_manifest save_known_peer cleanup_old_peers save_prekey_bundle
    mark_opk_used get_invite_state
registry-specified (calls_save_invite now id room token db) k = ground (
  arith,
  find-upsert invite_key (λ r. record r { token_json = token })
      (record {
        invite_id = id;
        room_id = room;
        token_json = token;
        revoked = false;
        uses = pos 0;
        created_at = now;
      })
      db.room_invites k (λ x. refl),
)
registry-specified (calls_revoke_invite id db) k = ground (
  arith,
  find-update_where invite_key (λ r. record r { revoked = true }) id k db.room_invites (λ x. refl),
)
registry-specified (calls_increment_invite_use id db) k = ground (
  arith,
  find-update_where invite_key (λ r. record r { uses = r.uses +ℤ pos 1 }) id k db.room_invites
      (λ x. refl),
)
registry-specified (calls_run_migrations db) k = ground (arith, run_migrations-room_invites db)
registry-specified (calls_save_capability json now id s r d m c v db) k =
    ground (arith, save_capability-room_invites json now id s r d m c v db)
registry-specified st k = refl

-- An invitation stays at least as far as it was: it is there, revoked if it was revoked, and its uses
-- are no fewer.
abbrev pub AtLeast : Bool × ℤ → Option (Bool × ℤ) → Type 0
AtLeast s none = ⊥
AtLeast (revoked, uses) (some (revoked', uses')) =
    (revoked ≡ true → revoked' ≡ true) × (uses ≤ℤ uses')

on_AtLeast :
    (s : Bool × ℤ) (change : Option (Bool × ℤ) → Option (Bool × ℤ)) (r : Registry) (id k : String)
    → ((o : Option (Bool × ℤ)) → AtLeast s o → AtLeast s (change o))
    → AtLeast s (r k)
    → AtLeast s (on id change r k)
on_AtLeast s change r id k h a = go (id == k)
  where
    go : (b : Bool) → AtLeast s (if b then change (r k) else r k)
    go true = h (r k) a
    go false = a

specified-AtLeast :
    (s : Bool × ℤ) (op : Op) (r : Registry) (k : String)
    → AtLeast s (r k)
    → AtLeast s (specified op r k)
specified-AtLeast s (open_op id) r k a = on_AtLeast s opened r id k (go s) a
  where
    go : (s : Bool × ℤ) (o : Option (Bool × ℤ)) → AtLeast s o → AtLeast s (opened o)
    go s none a = absurd a
    go s (some x) a = a
specified-AtLeast s (revoke_op id) r k a = on_AtLeast s _ r id k (go s) a
  where
    go :
        (s : Bool × ℤ) (o : Option (Bool × ℤ))
        → AtLeast s o
        → AtLeast s (Option.map (λ (revoked, uses). (true, uses)) o)
    go (b, u) none a = absurd a
    go (b, u) (some (b', u')) a = (λ _. refl, a.1)
specified-AtLeast s (use_op id) r k a = on_AtLeast s _ r id k (go s) a
  where
    go :
        (s : Bool × ℤ) (o : Option (Bool × ℤ))
        → AtLeast s o
        → AtLeast s (Option.map (λ (revoked, uses). (revoked, uses +ℤ pos 1)) o)
    go (b, u) none a = absurd a
    go (b, u) (some (b', u')) a = (a.0, ground (arith, a.1, +ℤ_parts u' (pos 1)))
specified-AtLeast s other_op r k a = a

-- In whatever order the operations of the database come, an invitation that is stored stays stored,
-- one that is revoked stays revoked, and uses are never taken back.
pub registry-AtLeast :
    (s : Bool × ℤ) (k : String) {db db' : Db}
    → Reach db db'
    → AtLeast s (registry db k)
    → AtLeast s (registry db' k)
registry-AtLeast s k start a = a
registry-AtLeast s k (next {mid} r st) a =
    subst (AtLeast s) (sym (registry-specified st k))
      (specified-AtLeast s (op_of st) (registry mid) k (registry-AtLeast s k r a))
