-- ===== src/Desk/Login.antt =====
-- The application's state over time (`AppState` and `run` of alterchat-ui/src-tauri/src/lib.rs, and
-- `login_profile` and `panic_wipe` of commands/auth.rs). The command to start the session goes to the
-- event loop, which takes it.
use alter_chat.Base.{
  String, ◌<>◌, Bool, Option, none, some, List, [], ◌∷◌, ◌++◌, ◌≡◌, refl, arith, if◌then◌else◌,
}
use alter_chat.Base.Equality.{◌==◌, string_eq}
use alter_chat.Base.Result.{Result, ok, err, map_err}
use alter_chat.Base.Action.{Action, pure, lift, modify, ◌>>=◌, ◌>>◌}
use alter_chat.Base.Text.{as_bytes}
use alter_chat.Governance.Tokens.{hex_string}
use alter_chat.Signer.{Signer}
use alter_chat.Crypto.{Crypto}
use alter_chat.Base.{take}
use alter_chat.Db.Schema.{Db}
use alter_chat.Desk.Session.{AppState, Platform, connect}
use alter_chat.Desk.Profiles.{storage_root_for_db}

-- `.manage(AppState { .. })`
unfoldable pub new_state : AppState
new_state = record { db_path = none; db_key = none; key_path = none }

-- `&hash_hex[0..16]`, of the first eight bytes.
unfoldable pub profile_of : Crypto → String → String
profile_of C password = hex_string (take 8 (C.sha256 (as_bytes password)))

unfoldable pub db_path_of : Crypto → String → Bool → String
db_path_of C password amnesic =
    if amnesic then ":memory:" else "alterchat_" <> (profile_of C password <> ".db")

unfoldable pub key_path_of : Crypto → String → Bool → String
key_path_of C password amnesic =
    if amnesic then ":memory:" else "keypair_" <> (profile_of C password <> ".bin")

module _ (S : Signer) (P : Platform S) (C : Crypto) where
  unfoldable pub login_profile : String → Bool → Action AppState String
  login_profile password amnesic = do
    keypair ← lift (
        map_err (λ e. "Failed to load keypair: " <> e)
          (P.load_or_generate_keypair (key_path_of C password amnesic)))
    modify (λ state. record state {
      db_path = some (db_path_of C password amnesic);
      key_path = some (key_path_of C password amnesic);
    })
    pure (S.peer_id (S.public keypair))

  -- What the state can be: at first, and after each login.
  pub data IsReached : AppState → Type 0 where
    start : IsReached new_state
    login :
        {state : AppState} (password : String) (amnesic : Bool)
        → IsReached state
        → IsReached (login_profile password amnesic state).1

  IsReached-db_key : {state : AppState} → IsReached state → state.db_key ≡ none
  unfolding new_state login_profile
  IsReached-db_key start = refl
  IsReached-db_key (login {state} password amnesic before) = ground (arith, IsReached-db_key before)

  -- In every state that the application can reach, however often it logs in, a command finds no key
  -- for the database: it fails, and the database is not touched.
  pub connect_shut :
      (state : AppState) (db : Db)
      → IsReached state
      → connect S P state db ≡ (err "Not logged in", db)
  unfolding connect
  connect_shut state db reached = ground (arith, IsReached-db_key reached)

unfoldable pub active_profile_paths : Option String → Option String → List String
active_profile_paths db_path key_path =
    elim db_path [ none ↦ [] | some db ↦ db ∷ (db <> "-shm") ∷ (db <> "-wal") ∷ [] ]
    ++ (elim key_path [ none ↦ [] | some key ↦ key ∷ [] ]
        ++ elim db_path [ none ↦ [] | some db ↦ storage_root_for_db db ∷ [] ])

-- What `panic_wipe` wipes; the files that are there for all profiles are an argument.
unfoldable pub wiped_paths : List String → String → AppState → Result (List String)
wiped_paths all_profile_paths scope state =
    if scope == "active_profile"
    then ok (active_profile_paths state.db_path state.key_path)
    else if scope == "message_db_only"
    then ok (active_profile_paths state.db_path none)
    else if scope == "all_profiles"
    then ok all_profile_paths
    else err "Unknown panic wipe scope"
