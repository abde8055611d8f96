-- ===== src/Node/Toy.antt =====
-- A small world for the tests of the event loop.
use mathlib.Core.Option
use alter_chat.Base.{ℕ, ◌+◌, get_elem?, true, false, none, some, [], ◌∷◌, ◌++◌, replicate}
use alter_chat.Base.Result.{ok, err}
use alter_chat.Int.{pos}
use alter_chat.Crypto.{toy}
use alter_chat.Signer.Toy as Signers
use alter_chat.Crdt.{Automerge}
use alter_chat.Governance.Types.{RevocationAnnouncement}
use alter_chat.Traffic.{new}
use alter_chat.Db.Schema.{Db, fresh_db, default_storage_settings}
use alter_chat.Db.Messages.{new_friend}
use alter_chat.Desk.Env.{Env}
use alter_chat.Desk.Config.{FullConfig}
use alter_chat.Node.Types.{World, Moment, Node, OfflineMsg}

-- Nothing is signed or printed.
abbrev env : Env
env = record {
  S = Signers.toy;
  P = record { open_db = λ path key. ok tt; load_or_generate_keypair = λ path. ok 1 };
  C = toy;
  K = record {
    serialize_invite = λ t. none;
    serialize_grant = λ g. none;
    serialize_edge = λ e. none;
    serialize_revocation = λ r. none;
  };
  roles = record { to_string = λ r. err "no role"; from_str = λ s. err "no role" };
  grants = record { to_string = λ g. err "no grant"; from_str = λ s. err "no grant" };
  tokens = record { to_string = λ t. err "no token"; from_str = λ s. err "no token" };
  edges = record { to_string = λ e. err "no edge"; from_str = λ s. err "no edge" };
}

-- A document is a number of messages, each the same.
abbrev pub documents : Automerge
documents = record {
  Doc = ℕ;
  Obj = ℕ;
  new = 0;
  root = 0;
  load = λ bytes. ok (Option.get_or (get_elem? bytes 0) 1);
  save = λ doc. doc ∷ [];
  commit = λ doc. doc;
  merge = λ doc other. ok other;
  put_list = λ obj key doc. ok doc;
  insert_map = λ obj i doc. ok (obj, doc + 1);
  put_text = λ obj key value doc. ok doc;
  put_i64 = λ obj key value doc. ok doc;
  length = λ doc obj. doc;
  get_object = λ doc obj key. ok (some 0);
  get_at = λ doc obj i. ok (some i);
  get_text = λ doc obj key. ok (some "hello");
  get_i64 = λ doc obj key. ok (some (pos 1));
}

abbrev pub announcement : RevocationAnnouncement
announcement = record {
  invite_id = "invite";
  room_id = "room";
  revoked_by = "mallory";
  revoked_at = pos 1;
  signature = [];
}

abbrev pub left_message : OfflineMsg
left_message = record {
  sender_peer_id = "bob";
  sender_nick = "Bob";
  text = "hello";
  timestamp = pos 3;
  ttl = none;
  nonce = 7 ∷ [];
}

abbrev pub world : World
world = record {
  E = env;
  A = documents;
  pbkdf2 = λ password salt rounds. password;
  ratchets = record { serialize = λ s. none; deserialize = λ b. none };
  sessions = record { serialize = λ s. none; deserialize = λ b. none };
  ratchet_envelopes = record { serialize = λ e. none; deserialize = λ b. none };
  dr_envelopes = record {
    serialize = λ e. some e.ciphertext;
    deserialize = λ b.
        some (record {
          header = record { dh = b; pn = 0; n = 0 };
          nonce = [];
          ciphertext = 32292 ∷ b;
        });
  };
  requests = record { serialize = λ r. none; deserialize = λ b. none };
  payloads = record { serialize = λ p. some p.ciphertext; deserialize = λ b. none };
  sealed = record { serialize = λ s. none; deserialize = λ b. none };
  sealed_inner = record { serialize = λ s. none; deserialize = λ b. none };
  packets = record { serialize = λ p. none; deserialize = λ b. none };
  layers = record { serialize = λ l. none; deserialize = λ b. none };
  offline = record { serialize = λ msg. some msg.nonce; deserialize = λ b. none };
  revocations = record { serialize = λ r. none; deserialize = λ b. some announcement };
  strings = record { to_string = λ l. err "no list"; from_str = λ s. err "no list" };
  kem = record {
    ek_has_size = λ ek. true;
    ek_is_valid = λ ek. true;
    ct_has_size = λ ct. true;
    encapsulate = λ ek r. (r, r);
    decapsulate = λ seed ct. ct;
    encapsulation_key = λ seed. seed;
    sign = λ key message. key ++ message;
  };
  bundles = record { to_string = λ b. ok "bundle"; from_str = λ s. err "no bundle" };
  hex_encode = λ b. "00000007";
  hex_decode = λ s. some (replicate 32 2);
  from_utf8 = λ b. some "hello";
  parse_peer = λ s. true;
  parse_addr = λ s. true;
  ed25519_secret = λ k. k ∷ [];
  create_swarm = λ config. true;
}

abbrev pub moment : Moment
moment = record { now = pos 10; seconds = 1; draw = λ i. i ∷ []; writable = λ path. true }

-- A friend with a key, and a lent storage.
abbrev pub db : Db
db = record fresh_db {
  friends = new_friend "bob" "Bob" (some "key") ∷ [];
  storage_settings = some default_storage_settings;
}

-- The user is asked before a stranger is let in.
abbrev config : FullConfig
config = record {
  nick = "me";
  offline_pubkey = none;
  bootstrap_ip = "";
  bootstrap_addrs = [];
  tor_enabled = true;
  proxy_mode = "none";
  proxy_addr = "";
  mdns_enabled = false;
  dht_server_mode = false;
  relay_enabled = true;
  transport_preference = "quic";
  relay_fallback_enabled = false;
  publish_capabilities = true;
  cover_traffic = true;
  msg_delay = true;
  local_notifications = false;
  unknown_peer_policy = "request-only";
  min_trust_dm = pos 0;
  min_trust_file = pos 0;
  min_trust_invite = pos 12;
  default_ttl = some (pos 60);
  persistence_enabled = true;
  invite_only_default = false;
  proof_of_work_enabled = true;
  rate_limit_per_minute = pos 30;
  storage_node_enabled = true;
  storage_quota_mb = pos 512;
  storage_retention_days = pos 7;
  sfu_threshold = pos 6;
  preferred_sfu_peer = "";
  accept_relay = false;
  experimental_media_e2ee = false;
}

abbrev pub node : Node world
node = record {
  swarm = true;
  conn = some db;
  db_path = some "alterchat_1.db";
  peer_id = "carol";
  offline_secret = 3 ∷ [];
  keypair = some 1;
  topic = "room";
  room = record { id = "room"; doc = 0; encryption_key = [] };
  cover_traffic = true;
  msg_delay = true;
  mdns = true;
  config = config;
  rate_buckets = [];
  pow_ban = new;
}
