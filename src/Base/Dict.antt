-- ===== src/Base/Dict.antt =====
-- A hash map as an association list.
use mathlib.Core.Path.{◌≡◌, refl}
use mathlib.Core.Option.{Option, none, some}
use mathlib.Core.List.{List, [], ◌∷◌}
use native.Mathlib.Omega.{arith}
use alter_chat.Base.Tests.{if◌then◌else◌}
use alter_chat.Base.Equality.{Eq, ◌==◌}

abbrev pub Dict {ℓ κ} : Type ℓ → Type κ → Type (ℓ ⊔ κ)
Dict K V = List (K × V)

module _ {ℓ κ} {K : Type ℓ} {V : Type κ} ⦃e : Eq K⦄ where
  unfoldable pub lookup : K → Dict K V → Option V
  lookup key [] = none
  lookup key (entry ∷ others) =
      let found = lookup key others in if key == entry.0 then some entry.1 else found

  unfoldable pub insert : K → V → Dict K V → Dict K V
  insert k v [] = (k, v) ∷ []
  insert k v ((j, w) ∷ d) = if k == j then (k, v) ∷ d else (j, w) ∷ insert k v d

  unfoldable pub remove_key : K → Dict K V → Dict K V
  remove_key k [] = []
  remove_key k ((j, w) ∷ d) = let rest = remove_key k d in if k == j then rest else (j, w) ∷ rest

  pub lookup-insert :
      (j k : K) (v : V) (d : Dict K V)
      → lookup j (insert k v d) ≡ (if j == k then some v else lookup j d)
  unfolding insert lookup
  lookup-insert j k v [] = refl
  lookup-insert j k v ((i, w) ∷ d) = ground (arith, lookup-insert j k v d)

  pub lookup-remove_key :
      (j k : K) (d : Dict K V) → lookup j (remove_key k d) ≡ (if j == k then none else lookup j d)
  unfolding remove_key lookup
  lookup-remove_key j k [] = ground arith
  lookup-remove_key j k ((i, w) ∷ d) = ground (arith, lookup-remove_key j k d)
