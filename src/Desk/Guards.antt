-- ===== src/Desk/Guards.antt =====
-- What the desktop back end lets into its database, and whom it lets act
-- (alterchat-ui/src-tauri/src/lib.rs and commands/governance.rs).
use alter_chat.Base.{String, false, Option, some, ◌≡◌, refl, arith, ◌∷◌, [], inl, inr}
use mathlib.Core.Option
use alter_chat.Base.Equality.{string_eq, strings_eq, bytes_eq, ==_refl}
use alter_chat.Base.Result.{Result-cases, ok, err, is_ok}
use alter_chat.Governance.Types.{PermissionGrant}
use alter_chat.Governance.Tokens.{verify_permission_grant}
use alter_chat.Db.Table.{find}
use alter_chat.Db.Table.Laws.{find-upsert}
use alter_chat.Db.Schema.{Db}
use alter_chat.Db.Rooms.{grant_key, save_permission_grant}
use alter_chat.Desk.Env.{Env}
use alter_chat.Desk.Session.{AppState, connect}
use alter_chat.Desk.Grants

-- The text of a grant that the database has.
abbrev pub stored_grant : PermissionGrant → Db → Option String
stored_grant grant db =
    Option.map (λ row. row.grant_json)
      (find grant_key (grant.room_id ∷ grant.subject_peer_id ∷ grant.role_id ∷ [])
        db.permission_grants)

find_saved :
    (grant : PermissionGrant) (json : String) (db : Db)
    → stored_grant grant
        (save_permission_grant grant.room_id grant.subject_peer_id grant.role_id json db)
      ≡ some json
unfolding save_permission_grant
find_saved grant json db = ground (
  arith,
  find-upsert grant_key (λ r. record r { grant_json = json })
      (record {
        room_id = grant.room_id;
        subject_peer_id = grant.subject_peer_id;
        role_id = grant.role_id;
        grant_json = json;
      })
      db.permission_grants (grant.room_id ∷ grant.subject_peer_id ∷ grant.role_id ∷ []) (λ x. refl),
  ==_refl (grant.room_id ∷ grant.subject_peer_id ∷ grant.role_id ∷ []),
)

-- A grant that the command has saved is genuine, and its text is what the database then has for its
-- room, subject and role.
pub save_permission_grant_lem :
    (E : Env) (grant : PermissionGrant) (state : AppState) (db : Db)
    → (Grants.save_permission_grant E grant state db).0 ≡ ok tt
    → (verify_permission_grant E.S E.K grant ≡ ok tt)
      × ((json : String) × (E.grants.to_string grant ≡ ok json)
          × (stored_grant grant (Grants.save_permission_grant E grant state db).1 ≡ some json))
unfolding Grants.save_permission_grant
save_permission_grant_lem E grant state db h = elim (Result-cases (connect E.S E.P state db).0) [
  | inl (e, shut) ↦ ground (arith, h, shut)
  | inr (_, opened) ↦ elim (Result-cases (verify_permission_grant E.S E.K grant)) [
    | inl (e, forged) ↦ ground (arith, h, opened, forged)
    | inr (_, genuine) ↦ elim (Result-cases (E.grants.to_string grant)) [
      | inl (e, silent) ↦ ground (arith, h, opened, genuine, silent)
      | inr (json, printed) ↦ (
        genuine,
        (
          json,
          printed,
          ground
              (arith, opened, genuine, printed, find_saved grant json (connect E.S E.P state db).1),
        ),
      )
    ]
  ]
]

-- A grant that is not genuine is not saved: the command fails, and the database is as it was opened.
pub save_permission_grant_forged :
    (E : Env) (grant : PermissionGrant) (state : AppState) (db : Db) (e : String)
    → verify_permission_grant E.S E.K grant ≡ err e
    → (is_ok (Grants.save_permission_grant E grant state db).0 ≡ false)
      × ((Grants.save_permission_grant E grant state db).1 ≡ (connect E.S E.P state db).1)
unfolding Grants.save_permission_grant
save_permission_grant_forged E grant state db e forged =
    (ground (arith, forged), ground (arith, forged))
