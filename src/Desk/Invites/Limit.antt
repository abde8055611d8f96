-- ===== src/Desk/Invites/Limit.antt =====
-- How often an invitation is accepted (`accept_invite` and `revoke_invite` of
-- alterchat-ui/src-tauri/src/commands/governance.rs).
use alter_chat.Base.{
  ℕ, suc, ◌≤◌, String, Bool, true, false, Option, none, some, some_inj, ◌≢◌, ◌≡◌, refl, sym, ap,
  ◌∙◌, subst, inl, inr, arith,
}
use mathlib.Core.Option
use alter_chat.Base.Equality.{string_eq, bytes_eq, ==_refl}
use alter_chat.Base.Result.{Result, Result-cases, ok}
use alter_chat.Int.{ℤ, pos, ◌+ℤ◌, ◌≤ℤ◌, +ℤ_parts}
use alter_chat.Governance.Types.{InviteToken}
use alter_chat.Governance.Tokens.{invite_id}
use alter_chat.Db.Schema.{Db}
use alter_chat.Db.Rooms.{revoke_invite}
use alter_chat.Db.Registry.{registry, AtLeast, registry-AtLeast, registry-specified}
use alter_chat.Db.Steps.{Step, Reach, start, next, calls_revoke_invite}
use alter_chat.Desk.Env.{Env}
use alter_chat.Desk.Session.{AppState}
use alter_chat.Desk.Invites.Checks.{check_state, check_token}
use alter_chat.Desk.Invites.{join_room, accept_invite}
use alter_chat.Desk.Invites.Course.{accept_invite-Accepted, asked, asked-Reach, registry-join_room}

-- What the check of the stored state lets through.
check_state_lem :
    (max_uses : Option ℕ) (revoked : Bool) (uses : ℤ)
    → check_state max_uses (some (revoked, uses)) ≡ ok tt
    → (revoked ≡ false) × ((max : ℕ) → max_uses ≡ some max → uses +ℤ pos 1 ≤ℤ pos max)
unfolding check_state
check_state_lem max_uses true uses h = ground arith
check_state_lem none false uses h = (refl, λ max e. ground arith)
check_state_lem (some m) false uses h =
    (refl, λ max e. ground (arith, h, some_inj e, +ℤ_parts uses (pos 1)))

-- A history of the database in which an invitation is accepted n times, by any user states and at
-- any times, with any other operations of the database in between.
pub data History (E : Env) (json : String) (db : Db) : ℕ → Db → Type 0 where
  begin : History E json db 0 db
  other :
      {n : ℕ} {mid after : Db}
      → History E json db n mid
      → Step mid after
      → History E json db n after
  accepted :
      {n : ℕ} {mid after : Db} (now : ℤ) (state : AppState) {result : String × Option String}
      → History E json db n mid
      → accept_invite E now json state mid ≡ (ok result, after)
      → History E json db (suc n) after

-- What a use of a stored invitation says of the counter and of the limit.
counted :
    (n : ℕ) (max_uses : Option ℕ) (o : Option (Bool × ℤ))
    → AtLeast (false, pos n) o
    → check_state max_uses o ≡ ok tt
    → AtLeast (false, pos (suc n)) (Option.map (λ (revoked, uses). (revoked, uses +ℤ pos 1)) o)
      × ((max : ℕ) → max_uses ≡ some max → suc n ≤ max)
counted n max_uses none a h = absurd a
counted n max_uses (some (r, u)) a h = (
  ((λ e. ground arith), ground (arith, a.1, +ℤ_parts u (pos 1))),
  λ max e. ground (arith, a.1, +ℤ_parts u (pos 1), (check_state_lem max_uses r u h).1 max e),
)

refused :
    (max_uses : Option ℕ) (u : ℤ) (o : Option (Bool × ℤ))
    → AtLeast (true, u) o
    → check_state max_uses o ≢ ok tt
refused max_uses u none a h = absurd a
refused max_uses u (some (b, v)) a h = ground (arith, a.0 refl, (check_state_lem max_uses b v h).0)

pair_of : {A : Type 0} {r : Result A × Db} {a : A} → r.0 ≡ ok a → r ≡ (ok a, r.1)
pair_of {r = r} h = ap (λ x. (x, r.1)) h

module _ (E : Env) (json : String) (token : InviteToken)
    (parses : E.tokens.from_str json ≡ ok token) where
  abbrev id : String
  id = invite_id E.K E.C token

  check_token_parsed : (now : ℤ) {t : InviteToken} → check_token E now json ≡ ok t → t ≡ token
  unfolding check_token
  check_token_parsed now h = ground (arith, parses)

  checked_of_ok :
      (now : ℤ) (state : AppState) (mid : Db) {after : Db} {result : String × Option String}
      → accept_invite E now json state mid ≡ (ok result, after)
      → check_token E now json ≡ ok token
  unfolding accept_invite
  checked_of_ok now state mid h = elim (Result-cases (check_token E now json)) [
    | inl (e, bad) ↦ ground (arith, h, bad)
    | inr (t, good) ↦ good ∙ ap ok (check_token_parsed now good)
  ]

  -- What an acceptance does to the registry.
  accept_invite_step :
      (n : ℕ) (now : ℤ) (state : AppState) (mid : Db) {after : Db} {result : String × Option String}
      → accept_invite E now json state mid ≡ (ok result, after)
      → AtLeast (false, pos n) (registry mid id)
      → AtLeast (false, pos (suc n)) (registry after id)
        × ((max : ℕ) → token.max_uses ≡ some max → suc n ≤ max)
  accept_invite_step n now state mid {after} h a =
      let run =
        accept_invite-Accepted E now json state mid token (checked_of_ok now state mid h) h in
      let before = registry-AtLeast (false, pos n) id (asked-Reach E now json state mid token) a in
      let there = asked E now json state mid token in
      let (further, bound) = counted n token.max_uses (registry there id) before run.state_ok in
      let counts : registry (join_room token id there) id
          ≡ Option.map (λ (revoked, uses). (revoked, uses +ℤ pos 1)) (registry there id) =
        ground (arith, registry-join_room token id there id, ==_refl id) in
      (
        subst (λ db. AtLeast (false, pos (suc n)) (registry db id)) (sym run.result)
            (subst (AtLeast (false, pos (suc n))) (sym counts) further),
        bound,
      )

  -- However an invitation that reads is passed around, and whatever operations of the database come
  -- in between, the application accepts it at most max_uses times, if it has such a limit and is
  -- stored with a count that is not negative; and its count is then at least the number of times.
  pub accept_invite_limit :
      (max : ℕ) {db after : Db} {n : ℕ}
      → token.max_uses ≡ some max
      → AtLeast (false, pos 0) (registry db id)
      → History E json db n after
      → AtLeast (false, pos n) (registry after id) × (n ≤ max)
  accept_invite_limit max limit stored begin = (stored, omega arith)
  accept_invite_limit max limit stored (other {n} h st) =
      let (a, b) = accept_invite_limit max limit stored h in
      (registry-AtLeast (false, pos n) id (next start st) a, b)
  accept_invite_limit max limit stored (accepted {mid} now state h ok_run) =
      let (a, b) = accept_invite_limit max limit stored h in
      let (further, bound) = accept_invite_step _ now state mid ok_run a in
      (further, bound max limit)

  -- Once a stored invitation is revoked, it is never accepted, at whatever time and whatever has been
  -- done in between.
  pub accept_invite_revoked :
      (now : ℤ) (state : AppState) (known : Bool × ℤ) (db db' : Db)
      (result : String × Option String)
      → registry db id ≡ some known
      → Reach (revoke_invite id db) db'
      → (accept_invite E now json state db').0 ≢ ok result
  accept_invite_revoked now state (b, u) db db' result stored r accepts =
      let run =
        accept_invite-Accepted E now json state db' token
          (checked_of_ok now state db' (pair_of accepts)) (pair_of accepts) in
      let now_revoked : registry (revoke_invite id db) id ≡ some (true, u) =
        ground (arith, registry-specified (calls_revoke_invite id db) id, stored, ==_refl id) in
      let revoked : AtLeast (true, u) (registry (revoke_invite id db) id) =
        subst (AtLeast (true, u)) (sym now_revoked) (λ _. refl, omega arith) in
      refused token.max_uses u (registry (asked E now json state db' token) id)
        (registry-AtLeast (true, u) id (asked-Reach E now json state db' token)
          (registry-AtLeast (true, u) id r revoked))
        run.state_ok
