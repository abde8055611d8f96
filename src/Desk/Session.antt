-- ===== src/Desk/Session.antt =====
-- What every command on governance reads of the application's state (`AppState` of
-- alterchat-ui/src-tauri/src/lib.rs), and `init_db` of alterchat-ui/src-tauri/src/db.rs. The state of
-- an action is the database that the path and the key open.
use alter_chat.Base.{String, Option}
use alter_chat.Base.Result.{Result, ok_or}
use alter_chat.Base.Action.{Action, lift, ◌>>=◌, ◌>>◌}
use alter_chat.Signer.{Signer}
use alter_chat.Db.Schema.{Db, run_migrations}

pub record AppState : Type 0 where
  pub db_path : Option String
  pub db_key : Option String
  pub key_path : Option String

-- What SQLite and the key file answer: whether the database opens under its path and key, and the
-- keypair of a file.
pub record Platform (S : Signer) : Type 0 where
  pub open_db : String → String → Result (Unit {0})
  pub load_or_generate_keypair : String → Result S.Keypair

module _ (S : Signer) (P : Platform S) where
  unfoldable pub init_db : String → String → Action Db (Unit {0})
  init_db db_path db_key = do lift (P.open_db db_path db_key); run_migrations

  -- The first lines of every command.
  unfoldable pub connect : AppState → Action Db (Unit {0})
  connect state = do
    path ← lift (ok_or state.db_path "Not logged in")
    key ← lift (ok_or state.db_key "Not logged in")
    init_db path key

  unfoldable pub keypair : AppState → Action Db S.Keypair
  keypair state = do
    key_path ← lift (ok_or state.key_path "Not logged in")
    lift (P.load_or_generate_keypair key_path)
