-- ===== src/Base/Equality.antt =====
-- Rust's `==` on the types whose equality the program tests.
use Prim.Native.Nat.{ℕ}
use Prim.Native.String.{String}
use mathlib.Core.Path.{◌≡◌, sym, ap, ◌∙◌}
use mathlib.Core.Logic.{ite, dite}
use mathlib.Core.Bool.{Bool, true, false, Bool-discrete}
use mathlib.Core.List.{List}
use native.Mathlib.Decide.{ℕ_discrete}
use native.Mathlib.Omega.{arith}
use text.Mathlib.Text
use text.Mathlib.TextEquality.{eq_iff}

pub record Eq {ℓ} (A : Type ℓ) : Type ℓ where
  pub dec : Discrete A

module _ {ℓ} {A : Type ℓ} ⦃e : Eq A⦄ where
  infix 50 ◌==◌
  abbrev pub ◌==◌ : A → A → Bool
  a == b = ite (e.dec a b) true false

  pub ==_refl : (a : A) → (a == a) ≡ true
  ==_refl a = ground arith

  pub ==_of_eq : {a b : A} → a ≡ b → (a == b) ≡ true
  ==_of_eq h = ground arith

  pub ==_comm : (a b : A) → (a == b) ≡ (b == a)
  ==_comm a b = elim (e.dec a b) [
    | yes p ↦ ap (λ x. x == b) p ∙ ap (λ x. b == x) (sym p)
    | no n ↦ elim (e.dec b a) [ yes p ↦ absurd (n (sym p)) | no m ↦ ground arith ]
  ]

  pub ==_sound : {a b : A} → (a == b) ≡ true → a ≡ b
  ==_sound {a} {b} h = elim (e.dec a b) [ yes p ↦ p | no n ↦ ground arith ]

instance unfoldable pub string_eq : Eq String
string_eq = record {
  dec = λ s t.
      dite (Bool-discrete (Text.◌==◌ s t) true) (λ same. yes ((eq_iff s t).0 same))
        (λ differ. no (λ p. differ ((eq_iff s t).1 p)));
}

bytes_dec : Discrete (List ℕ)
bytes_dec = hlevel ℕ_discrete

instance unfoldable pub bytes_eq : Eq (List ℕ)
unfolding bytes_dec
bytes_eq = record { dec = bytes_dec }

unfoldable pub string_dec : Discrete String
unfolding string_eq
string_dec = string_eq.dec

unfoldable pub strings_dec : Discrete (List String)
unfolding string_dec
strings_dec = hlevel string_dec

-- Keys of several columns.
instance unfoldable pub strings_eq : Eq (List String)
unfolding strings_dec
strings_eq = record { dec = strings_dec }
