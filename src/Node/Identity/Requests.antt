-- ===== src/Node/Identity/Requests.antt =====
-- What a session keeps while it serves a request (alterchat-ui/src-tauri/src/lib.rs).
use alter_chat.Base.{
  ℕ, String, Bool, true, false, Option, none, some, ◌≡◌, refl, arith, inl, inr, Bool-cases,
  Option-cases,
}
use mathlib.Core.Option
use alter_chat.Base.Bytes.{Bytes}
use alter_chat.Base.Equality.{string_eq}
use alter_chat.Int.{ℤ}
use alter_chat.Db.Schema.{Db}
use alter_chat.FileTransfer.{
  P2pRequest, P2pResponse, ratchet_private_message_ack, x3dh_dm_ack, file, file_chunk,
  webrtc_signal, private_message, ratchet_private_message, x3dh_dm, capability_announcement,
  onion_forward, plugin_event, pow_challenge, pow_solution,
}
use alter_chat.Node.Types.{World, Moment, Node, PmPayload}
use alter_chat.Node.Policy.{Verdict, served, refused, rate_limited, trusts, admit}
use alter_chat.Pow.{PowToken}
use alter_chat.Traffic.{PowBanList}
use alter_chat.Onion.{OnionLayer}
use alter_chat.Node.Files.{serve_file, serve_file_chunk}
use alter_chat.Node.Direct.{
  receive_ratchet_message, receive_x3dh_message, serve_private_message,
  serve_ratchet_private_message, serve_x3dh_dm, conclude,
}
use alter_chat.Node.Relay.{serve_onion_forward, serve_packet, serve_layer}
use alter_chat.Node.Requests.{serve, on_verdict, handle_request}

abbrev pub has_db : Option Db → Bool
has_db none = false
has_db (some db) = true

-- Who the node is, and that its network and its database are there.
unfoldable pub identity :
    (W : World) → Node W → Bool × Bool × Option String × String × Bytes × Option W.E.S.Keypair
identity W node =
    (node.swarm, has_db node.conn, node.db_path, node.peer_id, node.offline_secret, node.keypair)

has_db-serve_file :
    (peer filename : String) (content : Bytes) (conn : Option Db)
    → has_db (serve_file peer filename content conn).1 ≡ has_db conn
unfolding serve_file
has_db-serve_file peer filename content none = refl
has_db-serve_file peer filename content (some db) = refl

has_db-conclude :
    (ack : Bool → P2pResponse) (conn : Option Db) (receive : Db → Option (PmPayload × Db))
    → has_db (conclude ack conn (Option.bind conn receive)).1 ≡ has_db conn
unfolding conclude Option.bind
has_db-conclude ack none receive = refl
has_db-conclude ack (some db) receive = elim (Option-cases (receive db)) [
  | inl e ↦ rw e refl
  | inr (out, e) ↦ rw e refl
]

module _ (W : World) (m : Moment) where
  has_db-serve_file_chunk :
      (db_path : Option String) (peer transfer_id : String) (index : ℕ) (hash : String)
      (content : Bytes) (conn : Option Db)
      → has_db (serve_file_chunk W.E.C m db_path peer transfer_id index hash content conn).1
        ≡ has_db conn
  unfolding serve_file_chunk
  has_db-serve_file_chunk db_path peer transfer_id index hash content none = refl
  has_db-serve_file_chunk db_path peer transfer_id index hash content (some db) =
      elim (Bool-cases (trusts "min_trust_file" peer db).0) [
        | inl e ↦ rw e refl
        | inr e ↦ rw e refl
      ]

  has_db-serve_private_message :
      (my_peer_id peer words nick : String) (timestamp : ℤ) (ttl : Option ℤ)
      (token : Option PowToken) (ban : PowBanList) (conn : Option Db)
      → has_db (serve_private_message W m my_peer_id peer words nick timestamp ttl token ban conn).2
        ≡ has_db conn
  unfolding serve_private_message
  has_db-serve_private_message my_peer_id peer words nick timestamp ttl token ban none = refl
  has_db-serve_private_message my_peer_id peer words nick timestamp ttl token ban (some db) =
      ground arith

  has_db-serve_layer :
      (my_peer_id : String) (secret : Bytes) (peer : String) (layer : OnionLayer) (conn : Option Db)
      → has_db (serve_layer W m my_peer_id secret peer layer conn).1 ≡ has_db conn
  unfolding serve_layer Option.bind
  has_db-serve_layer my_peer_id secret peer layer none = ground arith
  has_db-serve_layer my_peer_id secret peer layer (some db) = ground arith

  has_db-serve_onion_forward :
      (my_peer_id : String) (secret : Bytes) (peer : String) (packet : Bytes) (conn : Option Db)
      → has_db (serve_onion_forward W m my_peer_id secret peer packet conn).1 ≡ has_db conn
  unfolding serve_onion_forward serve_packet
  has_db-serve_onion_forward my_peer_id secret peer packet conn = grind (arith, has_db-serve_layer)

  identity-serve :
      (peer : String) (request : P2pRequest) (node : Node W)
      → identity W (serve W m peer request node).1 ≡ identity W node
  unfolding identity serve serve_ratchet_private_message serve_x3dh_dm
  identity-serve peer (file filename content) node =
      ground (arith, has_db-serve_file peer filename content node.conn)
  identity-serve peer (file_chunk transfer_id index total hash content) node =
      ground
        (arith, has_db-serve_file_chunk node.db_path peer transfer_id index hash content node.conn)
  identity-serve peer (webrtc_signal words) node = refl
  identity-serve peer (private_message words nick timestamp ttl token) node = ground (
    arith,
    has_db-serve_private_message node.peer_id peer words nick timestamp ttl token node.pow_ban
        node.conn,
  )
  identity-serve peer (ratchet_private_message envelope nick timestamp ttl) node = ground (
    arith,
    has_db-conclude ratchet_private_message_ack node.conn (
        receive_ratchet_message W m node.peer_id node.offline_secret peer envelope nick timestamp
          ttl),
  )
  identity-serve peer (x3dh_dm init_msg envelope dh_pub nick timestamp ttl) node = ground (
    arith,
    has_db-conclude x3dh_dm_ack node.conn (
        receive_x3dh_message W m node.peer_id node.offline_secret peer envelope nick timestamp ttl),
  )
  identity-serve peer (capability_announcement peer_id s r d v score versions) node = ground arith
  identity-serve peer (onion_forward packet) node =
      ground
        (arith, has_db-serve_onion_forward node.peer_id node.offline_secret peer packet node.conn)
  identity-serve peer (plugin_event plugin_id event_json) node = refl
  identity-serve peer (pow_challenge challenge_id bits nonce) node = refl
  identity-serve peer (pow_solution challenge_id solution) node = refl

  identity-on_verdict :
      (verdict : Verdict) (peer : String) (request : P2pRequest) (node : Node W)
      → identity W (on_verdict W verdict m peer request node).1 ≡ identity W node
  unfolding on_verdict
  identity-on_verdict served peer request node = identity-serve peer request node
  identity-on_verdict refused peer request node = refl
  identity-on_verdict rate_limited peer request node = refl

  pub identity-handle_request :
      (peer : String) (request : P2pRequest) (node : Node W)
      → identity W (handle_request W m peer request node).1 ≡ identity W node
  unfolding identity handle_request
  identity-handle_request peer request node = elim (Bool-cases node.swarm) [
    | inr off ↦ ground (arith, off)
    | inl on ↦ elim (Option-cases node.conn) [
      | inl e ↦ ground (arith, on, e, identity-serve peer request node)
      | inr (db, e) ↦
          let (verdict, buckets, after) = admit m.now peer node.config node.rate_buckets db in
          ground (
            arith,
            on,
            e,
            identity-on_verdict verdict peer request
                (record node { conn = some after; rate_buckets = buckets }),
          )
    ]
  ]
