-- ===== src/Desk/Grants.antt =====
-- The commands on roles, grants and trust (alterchat-ui/src-tauri/src/commands/governance.rs).
-- The time is an argument; an error's text is passed on.
use alter_chat.Base.{String, not, List, [], ◌∷◌, Option}
use alter_chat.Base.Result.{Result, ok, err, fail_if}
use alter_chat.Base.Action.{Action, pure, lift, modify, gets, ◌>>=◌, ◌>>◌}
use alter_chat.Int.{ℤ}
use alter_chat.Governance.Types.{Role, PermissionGrant, TrustEdge, manage_roles}
use alter_chat.Governance.Tokens.{verify_permission_grant, verify_trust_edge}
use alter_chat.Governance.Tokens
use alter_chat.Db.Json.{Json}
use alter_chat.Db.Schema.{Db}
use alter_chat.Db.Rooms
use alter_chat.Desk.Env.{Env}
use alter_chat.Desk.Session.{AppState, connect, keypair}
use alter_chat.Desk.Access.{room_action_allowed}

-- `map(|json| serde_json::from_str(&json)).collect()`: the first text that does not parse is an error.
unfoldable pub all_parsed : {T : Type 0} → Json T → List String → Result (List T)
all_parsed J [] = ok []
all_parsed J (json ∷ rest) =
    let others = all_parsed J rest in
    elim (J.from_str json) [
      | err e ↦ err e
      | ok t ↦ elim others [ err e ↦ err e | ok ts ↦ ok (t ∷ ts) ]
    ]

module _ (E : Env) where
  unfoldable pub save_role : Role → AppState → Action Db (Unit {0})
  save_role role state = do
    connect E.S E.P state
    role_json ← lift (E.roles.to_string role)
    modify (Rooms.save_role role.room_id role.role_id role_json)

  unfoldable pub list_roles : String → AppState → Action Db (List Role)
  list_roles room_id state = do
    connect E.S E.P state
    texts ← gets (Rooms.list_roles room_id)
    lift (all_parsed E.roles texts)

  unfoldable pub save_trust_edge : TrustEdge → AppState → Action Db (Unit {0})
  save_trust_edge edge state = do
    connect E.S E.P state
    lift (verify_trust_edge E.S E.K edge)
    edge_json ← lift (E.edges.to_string edge)
    modify (Rooms.save_trust_edge edge.from_peer_id edge.to_peer_id edge_json)

  unfoldable pub create_trust_edge : ℤ → String → ℤ → String → AppState → Action Db TrustEdge
  create_trust_edge now to_peer_id score reason state = do
    key ← keypair E.S E.P state
    edge ← lift (Tokens.create_trust_edge E.S E.K key now to_peer_id score reason)
    connect E.S E.P state
    edge_json ← lift (E.edges.to_string edge)
    modify (Rooms.save_trust_edge edge.from_peer_id edge.to_peer_id edge_json)
    pure edge

  unfoldable pub list_trust_edges : AppState → Action Db (List TrustEdge)
  list_trust_edges state = do
    connect E.S E.P state
    texts ← gets Rooms.list_trust_edges
    lift (all_parsed E.edges texts)

  unfoldable pub save_permission_grant : PermissionGrant → AppState → Action Db (Unit {0})
  save_permission_grant grant state = do
    connect E.S E.P state
    lift (verify_permission_grant E.S E.K grant)
    grant_json ← lift (E.grants.to_string grant)
    modify
        (Rooms.save_permission_grant grant.room_id grant.subject_peer_id grant.role_id grant_json)

  unfoldable pub create_permission_grant :
      ℤ → String → String → String → Option ℤ → AppState → Action Db PermissionGrant
  create_permission_grant now room_id subject_peer_id role_id expires_at state = do
    key ← keypair E.S E.P state
    let issuer_peer = E.S.peer_id (E.S.public key)
    connect E.S E.P state
    allowed ←
        gets (room_action_allowed E.S E.K E.roles E.grants now room_id issuer_peer manage_roles)
    lift (fail_if (not allowed) "Manage roles permission denied")
    grant ←
        lift (
          Tokens.create_permission_grant E.S E.K key now room_id subject_peer_id role_id expires_at)
    grant_json ← lift (E.grants.to_string grant)
    modify
        (Rooms.save_permission_grant grant.room_id grant.subject_peer_id grant.role_id grant_json)
    pure grant

  unfoldable pub list_permission_grants : String → AppState → Action Db (List PermissionGrant)
  list_permission_grants room_id state = do
    connect E.S E.P state
    texts ← gets (Rooms.list_permission_grants room_id)
    lift (all_parsed E.grants texts)
