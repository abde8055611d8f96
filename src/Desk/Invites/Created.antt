-- ===== src/Desk/Invites/Created.antt =====
-- An invitation on its way from the node that creates it to one that accepts it
-- (`create_invite` and `accept_invite` of alterchat-ui/src-tauri/src/commands/governance.rs).
mod Tests
use alter_chat.Base.{
  ℕ, String, false, Option, none, some, List, [], ◌∷◌, ◌≡◌, sym, subst, ◌∙◌, arith, inl, inr,
}
use mathlib.Core.Option
use alter_chat.Base.Bytes.{Bytes}
use alter_chat.Base.Equality.{string_eq}
use alter_chat.Base.Result.{Result, ok, ok_inj, Result-cases}
use alter_chat.Int.{ℤ, pos, ◌+ℤ◌, ◌*ℤ◌, i64}
use alter_chat.Signer.{IsLawful}
use alter_chat.Governance.Types.{InviteToken, Permission, read, write, send_file, start_call}
use alter_chat.Governance.Tokens.{is_invite_expired, verify_invite, invite_id}
use alter_chat.Governance.Tokens
use alter_chat.Governance.Authentic.{verify_invite-create_invite}
use alter_chat.Db.Json.{JsonIsLawful}
use alter_chat.Db.Schema.{Db}
use alter_chat.Db.Table.{find}
use alter_chat.Db.Rooms.{group_key}
use alter_chat.Desk.Env.{Env}
use alter_chat.Desk.Session.{AppState, connect, keypair}
use alter_chat.Desk.Invites.{create_invite, accept_invite}
use alter_chat.Desk.Invites.Checks.{check_token}
use alter_chat.Desk.Invites.Joins.{Welcome, accept_invite_joins}

-- What an invitation is created with.
create_invite-fields :
    (E : Env) (k : E.S.Keypair) (nonce : Bytes) (room_id : String)
    (password subject : Option String) (expires_at : Option ℤ) (max_uses : Option ℕ)
    (capabilities : List Permission) {token : InviteToken}
    → Tokens.create_invite E.S E.K k nonce room_id password subject expires_at max_uses capabilities
      ≡ ok token
    → (token.room_id ≡ room_id) × (token.room_password ≡ password)
unfolding Tokens.create_invite
create_invite-fields E k nonce room_id password subject expires_at max_uses capabilities h =
    ground (arith, h)

module _ (E : Env) (L : IsLawful E.S) (J : JsonIsLawful InviteToken E.tokens) (now : ℤ)
    (nonce : Bytes) (room_id : String) (password : Option String) (expires_in_seconds : Option ℤ)
    (max_uses : Option ℕ) (host : AppState) (db : Db) where
  abbrev expires_at : Option ℤ
  expires_at = Option.map (λ seconds. i64 (now +ℤ i64 (seconds *ℤ pos 1000))) expires_in_seconds

  abbrev issued : E.S.Keypair → Result InviteToken
  issued k =
      Tokens.create_invite E.S E.K k nonce room_id password none expires_at max_uses
        (read ∷ write ∷ send_file ∷ start_call ∷ [])

  -- The invitation that is printed is one of the room that is genuine.
  create_invite-eq-ok :
      {json : String} {after : Db}
      → create_invite E now nonce room_id password expires_in_seconds max_uses host db
        ≡ (ok json, after)
      → (token : InviteToken) × (E.tokens.from_str json ≡ ok token)
        × (verify_invite E.S E.K token ≡ ok tt)
        × (token.room_id ≡ room_id)
        × (token.room_password ≡ password)
  unfolding create_invite
  create_invite-eq-ok {json} {after} h =
      let opened = connect E.S E.P host db in
      let found = keypair E.S E.P host opened.1 in
      elim (Result-cases opened.0) [
        | inl (e, bad) ↦ absurd (ground (arith, h, bad))
        | inr (u, fine) ↦ elim (Result-cases found.0) [
          | inl (e, bad) ↦ absurd (ground (arith, h, fine, bad))
          | inr (k, got) ↦ elim (Result-cases (issued k)) [
            | inl (e, bad) ↦ absurd (ground (arith, h, fine, got, bad))
            | inr (token, made) ↦ elim (Result-cases (E.tokens.to_string token)) [
              | inl (e, bad) ↦ absurd (ground (arith, h, fine, got, made, bad))
              | inr (words, printed) ↦
                  let same : words ≡ json = ground (arith, h, fine, got, made, printed) in
                  let (of_room, of_password) =
                    create_invite-fields E k nonce room_id password none expires_at max_uses
                      (read ∷ write ∷ send_file ∷ start_call ∷ []) made in
                  (
                    token,
                    subst (λ text. E.tokens.from_str text ≡ ok token) same
                        (J.from_str-to_string token printed),
                    verify_invite-create_invite E.S L E.K k nonce room_id password none expires_at
                        max_uses (read ∷ write ∷ send_file ∷ start_call ∷ []) made,
                    of_room,
                    of_password,
                  )
            ]
          ]
        ]
      ]

  -- An invitation that a node creates for a room, if its text is read and it has not expired, is
  -- accepted by a node whose database opens and is up to date, which has not blocked the issuer and
  -- trusts it enough, and where the invitation is not stored as revoked or used up: the room and
  -- its password come back, and the room is saved with that password (lawful signatures, a printed
  -- token that reads as it was).
  pub accept_invite-create_invite :
      (json : String) (token : InviteToken) (now' : ℤ) (guest : AppState) (after db' : Db)
      → create_invite E now nonce room_id password expires_in_seconds max_uses host db
        ≡ (ok json, after)
      → E.tokens.from_str json ≡ ok token
      → is_invite_expired token now' ≡ false
      → Welcome E token guest db'
      → ((accept_invite E now' json guest db').0 ≡ ok (room_id, password))
        × (Option.map
              (λ g. g.password)
              (find group_key room_id (accept_invite E now' json guest db').1.saved_groups)
            ≡ some password)
  unfolding check_token
  accept_invite-create_invite json token now' guest after db' created parsed valid w =
      let (token₀, read₀, genuine, of_room, of_password) = create_invite-eq-ok created in
      let same : token₀ ≡ token = ok_inj (sym read₀ ∙ parsed) in
      let checked : check_token E now' json ≡ ok token =
        ground (arith, parsed, subst (λ t. verify_invite E.S E.K t ≡ ok tt) same genuine, valid) in
      let room : token.room_id ≡ room_id = subst (λ t. t.room_id ≡ room_id) same of_room in
      let secret : token.room_password ≡ password =
        subst (λ t. t.room_password ≡ password) same of_password in
      rw (← room, ← secret) (accept_invite_joins E now' json token guest db' checked w)
