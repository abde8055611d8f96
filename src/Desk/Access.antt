-- ===== src/Desk/Access.antt =====
-- Who may act in a room and who may contact the user, as the desktop back end decides from its
-- database (alterchat-ui/src-tauri/src/lib.rs).
use alter_chat.Base.{String, Bool, true, false, List, [], ◌∷◌, none, some, eqb, ltb, if◌then◌else◌}
use alter_chat.Base.Result.{ok, err}
use alter_chat.Base.Action.{Action, pure, lift, gets, ◌>>=◌}
use alter_chat.Base.Member.{any}
use alter_chat.Base.Equality.{◌==◌, string_eq}
use alter_chat.Int.{ℤ}
use alter_chat.Signer.{Signer}
use alter_chat.Governance.Types.{Role, PermissionGrant, Permission, Codec}
use alter_chat.Governance.Tokens.{create_permission_grant}
use alter_chat.Governance.Access.{has_permission}
use alter_chat.Db.Json.{Json}
use alter_chat.Db.Schema.{Db}
use alter_chat.Db.Settings.{get_peer_settings}
use alter_chat.Db.Rooms.{count_roles, list_roles, list_permission_grants, seed_default_roles}
use alter_chat.Db.Messages.{get_friends}

-- `filter_map(|json| serde_json::from_str(&json).ok())`
unfoldable pub parsed : {T : Type 0} → Json T → List String → List T
parsed J [] = []
parsed J (json ∷ rest) =
    let others = parsed J rest in elim (J.from_str json) [ ok t ↦ t ∷ others | err e ↦ others ]

module _ (S : Signer) (K : Codec) (R : Json Role) (G : Json PermissionGrant) where
  unfoldable pub load_roles_and_grants : String → Db → List Role × List PermissionGrant
  load_roles_and_grants room_id db =
      (parsed R (list_roles room_id db), parsed G (list_permission_grants room_id db))

  unfoldable pub room_action_allowed : ℤ → String → String → Permission → Db → Bool
  room_action_allowed now room_id peer_id permission db =
      if eqb (count_roles room_id db) 0
      then true
      else (let (roles, grants) = load_roles_and_grants room_id db in
          has_permission S K grants roles peer_id permission now)

  unfoldable pub ensure_default_room_governance :
      ℤ → String → S.Keypair → String → Action Db (Unit {0})
  ensure_default_room_governance now room_id keypair peer_id = do
    present ← gets (λ db. ltb 0 (count_roles room_id db))
    elim present [
      | true ↦ pure tt
      | false ↦ do
        grant ← lift (create_permission_grant S K keypair now room_id peer_id "owner" none)
        grant_json ← lift (G.to_string grant)
        seed_default_roles R G room_id (some grant_json)
    ]

-- `unknown_peer_policy` of the configuration; the peer's settings are read first, and made if there
-- are none.
unfoldable pub peer_can_contact : String → String → Db → Bool × Db
peer_can_contact unknown_peer_policy peer_id db =
    let (settings, after) = get_peer_settings peer_id db in
    let is_known = any (λ friend. friend.peer_id == peer_id) (get_friends after) in
    (
      if elim settings [ ok s ↦ s.blocked | err e ↦ false ]
          then false
          else if unknown_peer_policy == "allow"
          then true
          else if unknown_peer_policy == "block"
          then is_known
          else is_known,
      after,
    )
