-- ===== src/Db/Table.antt =====
-- Tables of SQLite as lists of rows in the order of their row ids, and the statements that
-- alterchat-ui/src-tauri/src/db.rs makes on them.
pub mod Laws
use alter_chat.Base.{ℕ, Bool, not, Option, none, some, List, [], ◌∷◌, if◌then◌else◌}
use alter_chat.Base.Equality.{string_eq, bytes_eq, Eq, ◌==◌}
use mathlib.Core.Option

module _ {R K : Type 0} ⦃e : Eq K⦄ (key : R → K) where
  -- `SELECT … WHERE key = k`, of a primary key.
  unfoldable pub find : K → List R → Option R
  find k [] = none
  find k (x ∷ t) = let rest = find k t in if key x == k then some x else rest

  -- `INSERT … ON CONFLICT(key) DO UPDATE SET …`: the update of the row that is there.
  unfoldable pub upsert : (R → R) → R → List R → List R
  upsert change r [] = r ∷ []
  upsert change r (x ∷ t) =
      let rest = upsert change r t in if key x == key r then change x ∷ t else x ∷ rest

  -- `INSERT OR IGNORE`, and `ON CONFLICT(key) DO NOTHING`.
  unfoldable pub insert_or_ignore : R → List R → List R
  insert_or_ignore r t = upsert (λ x. x) r t

  -- The number of rows that `INSERT OR IGNORE` changes.
  unfoldable pub rows_changed : R → List R → ℕ
  rows_changed r t = elim (find (key r) t) [ none ↦ 1 | some x ↦ 0 ]

-- `SELECT … WHERE p`, `UPDATE … SET … WHERE p` and `DELETE … WHERE p`.
module _ {R : Type 0} where
  unfoldable pub select : (R → Bool) → List R → List R
  select p [] = []
  select p (x ∷ t) = let rest = select p t in if p x then x ∷ rest else rest

  unfoldable pub update_where : (R → Bool) → (R → R) → List R → List R
  update_where p change [] = []
  update_where p change (x ∷ t) = (if p x then change x else x) ∷ update_where p change t

  unfoldable pub delete_where : (R → Bool) → List R → List R
  delete_where p t = select (λ x. not (p x)) t

  -- `ORDER BY`: a row goes behind those that are not after it.
  unfoldable pub insert_by : (R → R → Bool) → R → List R → List R
  insert_by before r [] = r ∷ []
  insert_by before r (x ∷ t) =
      let rest = insert_by before r t in if before x r then x ∷ rest else r ∷ x ∷ t

  unfoldable pub order_by : (R → R → Bool) → List R → List R
  order_by before [] = []
  order_by before (x ∷ t) = insert_by before x (order_by before t)
