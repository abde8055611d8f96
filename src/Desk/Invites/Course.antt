-- ===== src/Desk/Invites/Course.antt =====
-- The course of `accept_invite` (alterchat-ui/src-tauri/src/commands/governance.rs).
use alter_chat.Base.{
  String, Option, ◌≡◌, sym, ap, ◌∙◌, subst, inl, inr, arith, if◌then◌else◌, Bool-cases,
  Option-cases,
}
use mathlib.Core.Option
use alter_chat.Base.Equality.{string_eq, bytes_eq, ==_sound, ◌==◌}
use alter_chat.Base.Result.{Result, Result-cases, ok, err}
use alter_chat.Int.{ℤ, pos, ◌+ℤ◌}
use alter_chat.Governance.Types.{InviteToken}
use alter_chat.Governance.Tokens.{invite_id}
use alter_chat.Db.Schema.{Db}
use alter_chat.Db.Settings.{get_peer_settings}
use alter_chat.Db.Rooms.{get_invite_state, save_group}
use alter_chat.Db.Registry.{registry, registry-specified}
use alter_chat.Db.Steps.{
  Reach, start, next, calls_save_group, calls_increment_invite_use, calls_get_peer_settings,
}
use alter_chat.Desk.Env.{Env}
use alter_chat.Desk.Session.{AppState, connect}
use alter_chat.Desk.Moves.{connect-Reach}
use alter_chat.Desk.Invites.Checks.{min_trust_invite, check_issuer, check_state, check_token}
use alter_chat.Desk.Invites.{join_room, accept_invite}

module _ (E : Env) (now : ℤ) (json : String) (state : AppState) (db : Db) where
  -- The database after it is opened, and after the issuer's settings are read.
  abbrev pub opened : Db
  opened = (connect E.S E.P state db).1

  abbrev pub asked : InviteToken → Db
  asked token = (get_peer_settings token.issuer_peer_id opened).1

  -- What a successful run has passed, and what it has left.
  pub record Accepted (token : InviteToken) (after : Db) : Type 0 where
    pub issuer_ok :
        check_issuer (min_trust_invite opened) (get_peer_settings token.issuer_peer_id opened).0
        ≡ ok tt
    pub state_ok :
        check_state token.max_uses (registry (asked token) (invite_id E.K E.C token)) ≡ ok tt
    pub result : after ≡ join_room token (invite_id E.K E.C token) (asked token)

  pub accept_invite_eq :
      (token : InviteToken)
      → check_token E now json ≡ ok token
      → accept_invite E now json state db ≡ (elim (connect E.S E.P state db).0 [
        | err e ↦ (err e, opened)
        | ok _ ↦
            elim (check_issuer
              (min_trust_invite opened)
              (get_peer_settings token.issuer_peer_id opened).0) [
                | err e ↦ (err e, asked token)
                | ok _ ↦
                    elim (check_state token.max_uses
                      (registry (asked token) (invite_id E.K E.C token))) [
                        | err e ↦ (err e, asked token)
                        | ok _ ↦ (
                          ok (token.room_id, token.room_password),
                          join_room token (invite_id E.K E.C token) (asked token),
                        )
                      ]
              ]
      ])
  unfolding accept_invite
  accept_invite_eq token checked = ground (arith, checked)

  pub accept_invite-Accepted :
      (token : InviteToken) {result : String × Option String} {after : Db}
      → check_token E now json ≡ ok token
      → accept_invite E now json state db ≡ (ok result, after)
      → Accepted token after
  accept_invite-Accepted token {result} {after} checked h =
      let e = sym (accept_invite_eq token checked) ∙ h in
      elim (Result-cases (connect E.S E.P state db).0) [
        | inl (x, bad) ↦ ground (arith, e, bad)
        | inr (_, fine) ↦
            elim (Result-cases (
              check_issuer (min_trust_invite opened)
                (get_peer_settings token.issuer_peer_id opened).0)) [
                  | inl (x, bad) ↦ ground (arith, e, fine, bad)
                  | inr (_, issuer) ↦
                      elim (Result-cases (
                        check_state token.max_uses
                          (registry (asked token) (invite_id E.K E.C token)))) [
                            | inl (x, bad) ↦ ground (arith, e, fine, issuer, bad)
                            | inr (_, stored) ↦ record {
                              issuer_ok = issuer;
                              state_ok = stored;
                              result =
                                  ap (λ (r : Result (String × Option String) × Db). r.1) (sym e)
                                  ∙ ground (arith, fine, issuer, stored);
                            }
                          ]
                ]
      ]

  pub asked-Reach : (token : InviteToken) → Reach db (asked token)
  asked-Reach token =
      next (connect-Reach E.S E.P state db) (calls_get_peer_settings token.issuer_peer_id opened)

module _ (token : InviteToken) (id : String) (db : Db) where
  joined : Db
  joined = save_group token.room_id token.room_password db

  pub join_room-Reach : Reach db (join_room token id db)
  unfolding join_room joined
  join_room-Reach = elim (Option-cases (get_invite_state id joined)) [
    | inl none_there ↦
        subst (Reach db) (ground (arith, none_there))
          (next start (calls_save_group token.room_id token.room_password db))
    | inr (s, there) ↦ subst (Reach db) (ground (arith, there)) (
        next (next start (calls_save_group token.room_id token.room_password db))
          (calls_increment_invite_use id joined))
  ]

  -- To join counts one use of the invitation, if it is stored, and changes no other.
  pub registry-join_room :
      (k : String)
      → registry (join_room token id db) k ≡ (
          if id == k
          then Option.map (λ (revoked, uses). (revoked, uses +ℤ pos 1)) (registry db k)
          else registry db k)
  unfolding join_room joined
  registry-join_room k = elim (Bool-cases (id == k)) [
    | inl same ↦ ground (
      arith,
      ==_sound {a = id} {b = k} same,
      registry-specified (calls_save_group token.room_id token.room_password db) k,
      registry-specified (calls_increment_invite_use id joined) k,
    )
    | inr differ ↦ ground (
      arith,
      registry-specified (calls_save_group token.room_id token.room_password db) k,
      registry-specified (calls_increment_invite_use id joined) k,
    )
  ]
