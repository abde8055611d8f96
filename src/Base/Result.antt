-- ===== src/Base/Result.antt =====
-- Rust's `Result<T, &'static str>` and `Result<T, String>`, with `?` as the bind of `do`.
use Prim.Native.String.{String}
use mathlib.Core.Path.{◌≡◌, refl, ap}
use native.Mathlib.Omega.{arith}
use mathlib.Core.Logic.{◌⊎◌, inl, inr}
use mathlib.Core.Bool.{Bool, true, false, not}
use mathlib.Core.Option.{Option, none, some}
use mathlib.Core.Option

pub data Result {κ} (T : Type κ) : Type κ where
  err : String → Result T
  ok : T → Result T

-- `Result::and_then`
abbrev pub and_then {κ μ} : {T : Type κ} {U : Type μ} → (T → Result U) → Result T → Result U
and_then f (err text) = err text
and_then f (ok t) = f t

infixl 5 ◌>>=◌ ◌>>◌
abbrev pub ◌>>=◌ {κ μ} : {T : Type κ} {U : Type μ} → Result T → (T → Result U) → Result U
◌>>=◌ r f = and_then f r

abbrev pub ◌>>◌ {κ} : {U : Type κ} → Result (Unit {0}) → Result U → Result U
◌>>◌ first next = and_then (λ _. next) first

-- An early `return Err(e)`.
abbrev pub fail_if : Bool → String → Result (Unit {0})
fail_if true e = err e
fail_if false e = ok tt

abbrev pub ok_or {ℓ} : {A : Type ℓ} → Option A → String → Result A
ok_or none e = err e
ok_or (some a) e = ok a

abbrev pub is_ok {ℓ} : {A : Type ℓ} → Result A → Bool
is_ok (ok a) = true
is_ok (err e) = false

abbrev pub map_ok {ℓ κ} : {A : Type ℓ} {B : Type κ} → (A → B) → Result A → Result B
map_ok f (ok a) = ok (f a)
map_ok f (err e) = err e

abbrev pub map_err {ℓ} : {A : Type ℓ} → (String → String) → Result A → Result A
map_err f (ok a) = ok a
map_err f (err e) = err (f e)

get_ok {ℓ} : {A : Type ℓ} → A → Result A → A
get_ok a (ok b) = b
get_ok a (err e) = a

pub ok_inj {ℓ} : {A : Type ℓ} {a b : A} → ok a ≡ ok b → a ≡ b
unfolding get_ok
ok_inj {a = a} h = ap (get_ok a) h

-- What `?` has passed on.
pub >>=-eq-ok {κ μ} :
    {T : Type κ} {U : Type μ} (r : Result T) (next : T → Result U) {u : U}
    → (r >>= next) ≡ ok u
    → (t : T) × (r ≡ ok t) × (next t ≡ ok u)
>>=-eq-ok (err text) next e = ground arith
>>=-eq-ok (ok t) next e = (t, refl, e)

pub map_err-eq-ok {ℓ} :
    {A : Type ℓ} (f : String → String) (r : Result A) {a : A} → map_err f r ≡ ok a → r ≡ ok a
map_err-eq-ok f (ok b) h = h
map_err-eq-ok f (err e) h = ground arith

-- What a guard has let through.
pub fail_if-not-eq-ok {ℓ} :
    {A : Type ℓ} (b : Bool) (e : String) (m : Result A) {a : A}
    → (fail_if (not b) e >> m) ≡ ok a
    → (b ≡ true) × (m ≡ ok a)
fail_if-not-eq-ok true e m h = (refl, h)
fail_if-not-eq-ok false e m h = ground arith

pub ok_or-eq-ok {ℓ} :
    {A : Type ℓ} (o : Option A) (e : String) {a : A} → ok_or o e ≡ ok a → o ≡ some a
ok_or-eq-ok none e h = ground arith
ok_or-eq-ok (some b) e h = ap some (ok_inj h)

pub Result-cases {ℓ} :
    {A : Type ℓ} (r : Result A) → ((e : String) × (r ≡ err e)) ⊎ ((a : A) × (r ≡ ok a))
Result-cases (err e) = inl (e, refl)
Result-cases (ok a) = inr (a, refl)

-- `Option::and_then` has a value if both parts do.
pub bind-eq-some :
    {A B : Type 0} (o : Option A) (f : A → Option B) {b : B}
    → Option.bind o f ≡ some b
    → (a : A) × (o ≡ some a) × (f a ≡ some b)
unfolding Option.bind
bind-eq-some none f h = ground arith
bind-eq-some (some a) f h = (a, refl, h)
