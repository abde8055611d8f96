-- ===== src/Base/Member.antt =====
-- Searches in lists: `iter().any`, `contains`, and membership.
use mathlib.Core.Path.{◌≡◌, refl}
use mathlib.Core.Bool.{Bool, true, false, ◌||◌}
use mathlib.Core.Logic.{inl, inr, ◌⊎◌}
use mathlib.Core.List.{List, [], ◌∷◌}
use native.Mathlib.Omega.{arith}
use alter_chat.Base.Tests.{Bool-cases}

module _ {ℓ} {A : Type ℓ} where
  abbrev pub any : (A → Bool) → List A → Bool
  any p [] = false
  any p (x ∷ xs) = p x || any p xs

  pub data In : A → List A → Type ℓ where
    here : {a : A} {xs : List A} → In a (a ∷ xs)
    there : {a x : A} {xs : List A} → In a xs → In a (x ∷ xs)

  pub any_of_In : (p : A → Bool) {a : A} {xs : List A} → In a xs → p a ≡ true → any p xs ≡ true
  any_of_In p here h = ground arith
  any_of_In p (there m) h = ground (arith, any_of_In p m h)

  pub In-of_any : (p : A → Bool) (xs : List A) → any p xs ≡ true → (a : A) × In a xs × (p a ≡ true)
  In-of_any p [] h = ground arith
  In-of_any p (x ∷ xs) h = elim (Bool-cases (p x)) [
    | inl e ↦ (x, here, e)
    | inr e ↦ let (a, m, e') = In-of_any p xs (ground arith) in (a, there m, e')
  ]

  pub In-nil : {a : A} → In a [] → ⊥
  In-nil h = elim h [ ]

  pub In-cons : {a x : A} {xs : List A} → In a (x ∷ xs) → (a ≡ x) ⊎ In a xs
  In-cons here = inl refl
  In-cons (there m) = inr m
