-- ===== src/Db/Table/Laws.antt =====
-- The statements as operations of a finite map from keys to rows.
use mathlib.Core.Option
use alter_chat.Base.{
  ◌≡◌, refl, true, false, none, some, List, [], ◌∷◌, arith, ltb, length, if◌then◌else◌,
}
use alter_chat.Base.Equality.{string_eq, bytes_eq, Eq, ◌==◌}
use alter_chat.Db.Table.{find, upsert, select, update_where, delete_where}

module _ {R K : Type 0} ⦃e : Eq K⦄ (key : R → K) where
  abbrev pub KeepsKey : (R → R) → Type 0
  KeepsKey change = (x : R) → key (change x) ≡ key x

  pub find-upsert :
      (change : R → R) (r : R) (t : List R) (k : K)
      → KeepsKey change
      → find key k (upsert key change r t) ≡ (
          if key r == k
          then some (elim (find key k t) [ none ↦ r | some x ↦ change x ])
          else find key k t)
  unfolding find upsert
  find-upsert change r [] k h = ground arith
  find-upsert change r (x ∷ t) k h = ground (arith, h x, find-upsert change r t k h)

  pub find-update_where :
      (change : R → R) (j k : K) (t : List R)
      → KeepsKey change
      → find key k (update_where (λ x. key x == j) change t)
        ≡ (if j == k then Option.map change (find key k t) else find key k t)
  unfolding find update_where
  find-update_where change j k [] h = ground arith
  find-update_where change j k (x ∷ t) h = ground (arith, h x, find-update_where change j k t h)

  pub find-delete_where :
      (j k : K) (t : List R)
      → find key k (delete_where (λ x. key x == j) t) ≡ (if j == k then none else find key k t)
  unfolding find delete_where select
  find-delete_where j k [] = ground arith
  find-delete_where j k (x ∷ t) = ground (arith, find-delete_where j k t)

  -- A count of the rows with a key finds one exactly if a query does.
  pub count-find :
      (k : K) (t : List R)
      → ltb 0 (length (select (λ x. key x == k) t))
        ≡ (elim (find key k t) [ none ↦ false | some x ↦ true ])
  unfolding find select
  count-find k [] = refl
  count-find k (x ∷ t) = ground (arith, count-find k t)
