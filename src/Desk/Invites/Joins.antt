-- ===== src/Desk/Invites/Joins.antt =====
-- A good invitation is accepted (`accept_invite` of
-- alterchat-ui/src-tauri/src/commands/governance.rs).
use alter_chat.Base.{String, false, some, ◌≡◌, refl, ap, ◌∙◌, arith}
use mathlib.Core.Option
use alter_chat.Base.Equality.{string_eq, bytes_eq, ==_refl}
use alter_chat.Base.Result.{ok}
use alter_chat.Int.{ℤ, ltb_ℤ}
use alter_chat.Governance.Types.{InviteToken}
use alter_chat.Governance.Tokens.{invite_id}
use alter_chat.Db.Table.{find, insert_or_ignore}
use alter_chat.Db.Table.Laws.{find-upsert}
use alter_chat.Db.Schema.{Db, run_migrations}
use alter_chat.Db.Settings.{peer_key, default_peer_settings, get_peer_settings}
use alter_chat.Db.Rows.{PeerSettings}
use alter_chat.Db.Rooms.{save_group, increment_invite_use, group_key, new_group}
use alter_chat.Db.Registry.{registry, registry-specified}
use alter_chat.Db.Steps.{calls_get_peer_settings}
use alter_chat.Desk.Env.{Env}
use alter_chat.Desk.Session.{AppState, init_db, connect}
use alter_chat.Desk.Invites.Checks.{min_trust_invite, check_issuer, check_state, check_token}
use alter_chat.Desk.Invites.{join_room, accept_invite}
use alter_chat.Desk.Invites.Course.{accept_invite_eq}

-- What is stored of a peer, or the defaults.
pub get_peer_settings_lem :
    (peer_id : String) (db : Db)
    → (get_peer_settings peer_id db).0
      ≡ ok (Option.get_or (find peer_key peer_id db.peer_settings) (default_peer_settings peer_id))
unfolding get_peer_settings insert_or_ignore
get_peer_settings_lem peer_id db = ground (
  arith,
  find-upsert peer_key (λ x. x) (default_peer_settings peer_id) db.peer_settings peer_id
      (λ x. refl),
  ==_refl peer_id,
)

join_room_group :
    (token : InviteToken) (id : String) (db : Db)
    → Option.map
        (λ g. g.password)
        (find group_key token.room_id (join_room token id db).saved_groups)
      ≡ some token.room_password
unfolding join_room save_group increment_invite_use
join_room_group token id db = ground (
  arith,
  find-upsert group_key (λ g. record g { password = token.room_password })
      (new_group token.room_id token.room_password) db.saved_groups token.room_id (λ x. refl),
  ==_refl token.room_id,
)

-- The user is logged in, the database opens and is up to date, and its owner has not blocked the
-- issuer of the invitation nor trusts the issuer too little; the invitation is not known to be
-- revoked or used up.
pub record Welcome (E : Env) (token : InviteToken) (state : AppState) (db : Db) : Type 0 where
  pub path : String
  pub key : String
  pub has_path : state.db_path ≡ some path
  pub has_key : state.db_key ≡ some key
  pub opens : E.P.open_db path key ≡ ok tt
  pub current : db.user_version ≡ 2
  pub settings : PeerSettings
  pub has_settings :
      Option.get_or
        (find peer_key token.issuer_peer_id db.peer_settings)
        (default_peer_settings token.issuer_peer_id)
      ≡ settings
  pub not_blocked : settings.blocked ≡ false
  pub trusted : ltb_ℤ settings.trust_level (min_trust_invite db) ≡ false
  pub usable : check_state token.max_uses (registry db (invite_id E.K E.C token)) ≡ ok tt

module _ (E : Env) (now : ℤ) (json : String) (token : InviteToken) (state : AppState)
    (db : Db) where
  connect_lem : Welcome E token state db → connect E.S E.P state db ≡ (ok tt, db)
  unfolding connect init_db run_migrations
  connect_lem w = ground (arith, w.has_path, w.has_key, w.opens, w.current)

  issuer_ok :
      Welcome E token state db
      → check_issuer (min_trust_invite db) (get_peer_settings token.issuer_peer_id db).0 ≡ ok tt
  unfolding check_issuer
  issuer_ok w =
      ap (check_issuer (min_trust_invite db))
        (get_peer_settings_lem token.issuer_peer_id db ∙ ap ok w.has_settings)
      ∙ ground (arith, w.not_blocked, w.trusted)

  -- An invitation that reads, is genuine and has not expired is accepted by a user who is logged in,
  -- whose database opens and is up to date, who has not blocked its issuer and trusts the issuer
  -- enough, if it is not stored as revoked or used up: the room and its password come back, and the
  -- room is saved with that password.
  pub accept_invite_joins :
      check_token E now json ≡ ok token
      → Welcome E token state db
      → ((accept_invite E now json state db).0 ≡ ok (token.room_id, token.room_password))
        × (Option.map
              (λ g. g.password)
              (find group_key token.room_id (accept_invite E now json state db).1.saved_groups)
            ≡ some token.room_password)
  accept_invite_joins checked w =
      let run : accept_invite E now json state db ≡ (
        ok (token.room_id, token.room_password),
        join_room token (invite_id E.K E.C token) (get_peer_settings token.issuer_peer_id db).1,
      ) =
        accept_invite_eq E now json state db token checked
        ∙ ground (
          arith,
          ap (λ r. r.0) (connect_lem w),
          ap (λ r. r.1) (connect_lem w),
          issuer_ok w,
          registry-specified (calls_get_peer_settings token.issuer_peer_id db)
              (invite_id E.K E.C token),
          w.usable,
        ) in
      (
        ap (λ r. r.0) run,
        ap (λ r. Option.map (λ g. g.password) (find group_key token.room_id r.1.saved_groups)) run
            ∙ join_room_group token (invite_id E.K E.C token) _,
      )
