-- ===== src/Desk/Invites/Created/Tests.antt =====
-- An invitation from one small node to another (alterchat-ui/src-tauri/src/commands/governance.rs).
use alter_chat.Base.{
  ℕ_discrete, String, false, none, some, [], ◌∷◌, ◌≡◌, refl, ap, sym, arith, length, inl, inr,
  Bool-cases, if◌then◌else◌,
}
use mathlib.Core.Option
use alter_chat.Base.Equality.{string_eq, string_dec, bytes_eq, Eq, ◌==◌, ==_refl, ==_sound}
use alter_chat.Base.Result.{Result, ok, err}
use alter_chat.Int.{pos}
use alter_chat.Crypto.{toy}
use alter_chat.Signer.Toy as Signers
use alter_chat.Governance.Types.{InviteToken, permission_eq, read, write, send_file, start_call}
use alter_chat.Db.Json.{JsonIsLawful}
use alter_chat.Db.Schema.{Db, fresh_db, run_migrations}
use alter_chat.Db.Table.{find, select}
use alter_chat.Db.Rooms.{group_key, get_invite_state, count_roles, save_invite}
use alter_chat.Db.Settings.{default_peer_settings, load_setting}
use alter_chat.Desk.Env.{Env}
use alter_chat.Desk.Session.{AppState, connect, init_db, keypair}
use alter_chat.Desk.Access.{room_action_allowed}
use alter_chat.Governance.Tokens.{sign_bytes, invite_signing_bytes, is_invite_expired}
use alter_chat.Governance.Tokens
use alter_chat.Desk.Invites.{create_invite, accept_invite}
use alter_chat.Desk.Invites.Checks.{min_trust_invite, check_state}
use alter_chat.Desk.Invites.Joins.{Welcome}
use alter_chat.Desk.Invites.Created.{accept_invite-create_invite}

token_dec : Discrete InviteToken
token_dec = hlevel (string_dec, ℕ_discrete, permission_eq.dec)

instance token_eq : Eq InviteToken
unfolding token_dec
token_eq = record { dec = token_dec }

abbrev invitation : InviteToken
invitation = record {
  room_id = "room";
  room_password = some "secret";
  issuer_peer_id = "alice";
  issuer_public_key = 1 ∷ [];
  subject_peer_id = none;
  expires_at = none;
  max_uses = some 3;
  capabilities = read ∷ write ∷ send_file ∷ start_call ∷ [];
  nonce = 5 ∷ [];
  signature = 1 ∷ 1 ∷ 4 ∷ [];
}

-- The only text is that of the invitation.
print : InviteToken → Result String
print t = if t == invitation then ok "token" else err "no token"

abbrev env : Env
env = record {
  S = Signers.toy;
  P = record { open_db = λ path key. ok tt; load_or_generate_keypair = λ path. ok 1 };
  C = toy;
  K = record {
    serialize_invite = λ t. some (length t.nonce ∷ length t.capabilities ∷ []);
    serialize_grant = λ g. none;
    serialize_edge = λ e. none;
    serialize_revocation = λ r. none;
  };
  roles = record { to_string = λ r. err "no role"; from_str = λ s. err "no role" };
  grants = record { to_string = λ g. err "no grant"; from_str = λ s. err "no grant" };
  tokens = record { to_string = print; from_str = λ s. ok invitation };
  edges = record { to_string = λ e. err "no edge"; from_str = λ s. err "no edge" };
}

tokens-IsLawful : JsonIsLawful InviteToken env.tokens
unfolding print
tokens-IsLawful = record {
  from_str-to_string = λ t h. elim (Bool-cases (t == invitation)) [
    | inl same ↦ ap ok (sym (==_sound {a = t} {b = invitation} same))
    | inr other ↦ absurd (ground (arith, h, other))
  ];
}

-- Alice's state and the guest's, and their databases.
abbrev host : AppState
host = record { db_path = some "a"; db_key = some "key"; key_path = some "keys" }

abbrev guest : AppState
guest = record { db_path = some "b"; db_key = some "key"; key_path = none }

abbrev db : Db
db = record fresh_db { user_version = 2 }

welcome : Welcome env invitation guest db
unfolding find min_trust_invite load_setting Option.bind check_state get_invite_state
welcome = record {
  path = "b";
  key = "key";
  has_path = refl;
  has_key = refl;
  opens = refl;
  current = refl;
  settings = default_peer_settings "alice";
  has_settings = refl;
  not_blocked = refl;
  trusted = refl;
  usable = refl;
}

abbrev created : Db
created = (create_invite env (pos 3) (5 ∷ []) "room" (some "secret") none (some 3) host db).1

printed : print invitation ≡ ok "token"
unfolding print
printed = ground (arith, ==_refl invitation)

runs :
    create_invite env (pos 3) (5 ∷ []) "room" (some "secret") none (some 3) host db
    ≡ (ok "token", created)
unfolding create_invite connect init_db run_migrations keypair room_action_allowed count_roles
    select Tokens.create_invite sign_bytes invite_signing_bytes print save_invite token_eq
    string_dec ℕ_discrete permission_eq
runs = rw printed refl

valid : is_invite_expired invitation (pos 9) ≡ false
unfolding is_invite_expired
valid = refl

accept_invite-create_invite_example :
    ((accept_invite env (pos 9) "token" guest db).0 ≡ ok ("room", some "secret"))
    × (Option.map
          (λ g. g.password)
          (find group_key "room" (accept_invite env (pos 9) "token" guest db).1.saved_groups)
        ≡ some (some "secret"))
accept_invite-create_invite_example =
    accept_invite-create_invite env Signers.toy-IsLawful tokens-IsLawful (pos 3) (5 ∷ []) "room"
      (some "secret") none (some 3) host db "token" invitation (pos 9) guest created db runs refl
      valid welcome
