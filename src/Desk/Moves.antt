-- ===== src/Desk/Moves.antt =====
-- Commands of the desktop back end as sequences of the database's operations
-- (alterchat-ui/src-tauri/src/lib.rs and commands/governance.rs).
use alter_chat.Base.{subst, arith, inl, inr}
use alter_chat.Base.Result.{Result-cases, ok_or}
use alter_chat.Signer.{Signer}
use alter_chat.Db.Schema.{Db}
use alter_chat.Db.Steps.{Reach, start, next, calls_run_migrations}
use alter_chat.Desk.Session.{AppState, Platform, init_db, connect}

pub Reach-trans : {a b c : Db} → Reach a b → Reach b c → Reach a c
Reach-trans r start = r
Reach-trans r (next q st) = next (Reach-trans r q) st

module _ (S : Signer) (P : Platform S) (state : AppState) (db : Db) where
  -- Opening the database does nothing or migrates it.
  pub connect-Reach : Reach db (connect S P state db).1
  unfolding connect init_db
  connect-Reach = elim (Result-cases (ok_or state.db_path "Not logged in")) [
    | inl (e, no_path) ↦ subst (Reach db) (ground (arith, no_path)) start
    | inr (path, is_path) ↦ elim (Result-cases (ok_or state.db_key "Not logged in")) [
      | inl (e, no_key) ↦ subst (Reach db) (ground (arith, no_key, is_path)) start
      | inr (key, is_key) ↦ elim (Result-cases (P.open_db path key)) [
        | inl (e, shut) ↦ subst (Reach db) (ground (arith, is_key, is_path, shut)) start
        | inr (_, opened) ↦
            subst (Reach db) (ground (arith, is_key, is_path, opened))
              (next start (calls_run_migrations db))
      ]
    ]
  ]
