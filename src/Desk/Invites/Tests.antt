-- ===== src/Desk/Invites/Tests.antt =====
-- The commands on invitations and grants on small inputs.
use alter_chat.Base.{false, none, some, [], ◌∷◌, ◌≡◌, ◌≢◌, refl, ap, ℕ_discrete, arith, ◌≤◌, length}
use mathlib.Core.Option
use alter_chat.Base.Equality.{string_eq, bytes_eq}
use alter_chat.Base.Result.{ok, err}
use alter_chat.Int.{pos}
use alter_chat.Crypto.{toy}
use alter_chat.Signer.Toy as Signers
use alter_chat.Governance.Types.{InviteToken, PermissionGrant, Codec, read}
use alter_chat.Governance.Tokens.{
  invite_id, verify_invite, invite_signing_bytes, hex_string, is_invite_expired, verify_bytes,
  decode_public_key, public_key_peer_id,
}
use alter_chat.Db.Table.{find, upsert, insert_or_ignore, update_where}
use alter_chat.Db.Rows.{InviteRow}
use alter_chat.Db.Schema.{Db, fresh_db, run_migrations}
use alter_chat.Db.Settings.{get_peer_settings, load_setting, default_peer_settings}
use alter_chat.Db.Rooms.{get_invite_state, save_group, increment_invite_use, revoke_invite}
use alter_chat.Db.Registry.{AtLeast, registry}
use alter_chat.Db.Steps.{start}
use alter_chat.Desk.Env.{Env}
use alter_chat.Desk.Session.{AppState, connect, init_db}
use alter_chat.Desk.Invites.Checks.{min_trust_invite, check_issuer, check_state, check_token}
use alter_chat.Desk.Invites.{accept_invite, join_room}
use alter_chat.Desk.Invites.Limit.{begin, accepted, accept_invite_limit, accept_invite_revoked}
use alter_chat.Desk.Invites.Joins.{Welcome}

-- The lengths of a few fields stand for the encodings.
abbrev codec : Codec
codec = record {
  serialize_invite = λ t. some (length t.nonce ∷ length t.capabilities ∷ []);
  serialize_grant = λ g. some (length g.issuer_public_key ∷ length g.signature ∷ []);
  serialize_edge = λ e. some (length e.from_public_key ∷ length e.signature ∷ []);
  serialize_revocation = λ r. some (length r.signature ∷ []);
}

abbrev invitation : InviteToken
invitation = record {
  room_id = "room";
  room_password = some "secret";
  issuer_peer_id = "alice";
  issuer_public_key = 1 ∷ [];
  subject_peer_id = none;
  expires_at = some (pos 7);
  max_uses = some 1;
  capabilities = read ∷ [];
  nonce = 5 ∷ [];
  signature = 1 ∷ 1 ∷ 1 ∷ [];
}

-- The only text is that of the invitation.
abbrev env : Env
env = record {
  S = Signers.toy;
  P = record { open_db = λ path key. ok tt; load_or_generate_keypair = λ path. ok 1 };
  C = toy;
  K = codec;
  roles = record { to_string = λ r. err "no role"; from_str = λ s. err "no role" };
  grants = record { to_string = λ g. ok "grant"; from_str = λ s. err "no grant" };
  tokens = record { to_string = λ t. ok "token"; from_str = λ s. ok invitation };
  edges = record { to_string = λ e. err "no edge"; from_str = λ s. err "no edge" };
}

abbrev user : AppState
user = record { db_path = some "db"; db_key = some "key"; key_path = none }

abbrev row : InviteRow
row = record {
  invite_id = invite_id codec toy invitation;
  room_id = "room";
  token_json = "token";
  revoked = false;
  uses = pos 0;
  created_at = pos 1;
}

abbrev db : Db
db = record fresh_db { user_version = 2; room_invites = row ∷ [] }

abbrev after : Db
after = (accept_invite env (pos 3) "token" user db).1

row_found : registry db (invite_id codec toy invitation) ≡ some (false, pos 0)
unfolding get_invite_state find invite_id hex_string invite_signing_bytes string_eq
row_found = refl

runs : accept_invite env (pos 3) "token" user db ≡ (ok ("room", some "secret"), after)
unfolding accept_invite check_token verify_invite decode_public_key public_key_peer_id verify_bytes
    is_invite_expired connect init_db run_migrations min_trust_invite Option.bind load_setting
    get_peer_settings check_issuer check_state get_invite_state join_room save_group
    increment_invite_use update_where insert_or_ignore upsert find invite_id hex_string
    invite_signing_bytes string_eq bytes_eq ℕ_discrete
runs = refl

accept_invite_limit_example :
    AtLeast (false, pos 1) (registry after (invite_id codec toy invitation)) × (1 ≤ 1)
unfolding get_invite_state find invite_id hex_string invite_signing_bytes string_eq
accept_invite_limit_example =
    accept_invite_limit env "token" invitation refl 1 {db = db} {after = after} {n = 1} refl
      ((λ e. e), omega arith) (accepted (pos 3) user begin runs)

accept_invite_revoked_example :
    (accept_invite env (pos 3) "token" user (revoke_invite (invite_id codec toy invitation) db)).0
    ≢ ok ("room", some "secret")
accept_invite_revoked_example =
    accept_invite_revoked env "token" invitation refl (pos 3) user (false, pos 0) db
      (revoke_invite (invite_id codec toy invitation) db) ("room", some "secret") row_found start

checked : check_token env (pos 3) "token" ≡ ok invitation
unfolding check_token verify_invite decode_public_key public_key_peer_id verify_bytes
    is_invite_expired invite_signing_bytes string_eq bytes_eq ℕ_discrete
checked = refl

welcome : Welcome env invitation user db
unfolding find min_trust_invite load_setting Option.bind check_state
welcome = record {
  path = "db";
  key = "key";
  has_path = refl;
  has_key = refl;
  opens = refl;
  current = refl;
  settings = default_peer_settings "alice";
  has_settings = refl;
  not_blocked = refl;
  trusted = refl;
  usable = ap (check_state (some 1)) row_found;
}

abbrev some_grant : PermissionGrant
some_grant = record {
  room_id = "room";
  subject_peer_id = "bob";
  role_id = "guest";
  issuer_peer_id = "alice";
  issuer_public_key = 1 ∷ [];
  issued_at = pos 1;
  expires_at = none;
  signature = 1 ∷ 1 ∷ 0 ∷ [];
}
