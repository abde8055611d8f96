-- ===== src/Node/Answers.antt =====
-- That every request is answered (the handler of alterchat-ui/src-tauri/src/lib.rs).
use alter_chat.Base.{
  ℕ, String, Bool, true, false, Option, none, some, List, [], ◌∷◌, ◌++◌, ◌≡◌, refl, ap, arith, inl,
  inr, Bool-cases, Option-cases,
}
use mathlib.Core.Option
use alter_chat.Base.Bytes.{Bytes}
use alter_chat.Int.{ℤ}
use alter_chat.FileTransfer.{
  P2pRequest, P2pResponse, file, file_chunk, webrtc_signal, private_message,
  ratchet_private_message, x3dh_dm, capability_announcement, onion_forward, plugin_event,
  pow_challenge, pow_solution, Answers, Answers-rejection_for_request, to_file, to_file_chunk,
  to_webrtc_signal, to_private_message, to_ratchet_private_message, to_x3dh_dm,
  to_capability_announcement, to_onion_forward, to_plugin_event, to_pow_challenge, to_pow_solution,
}
use alter_chat.Pow.{PowToken}
use alter_chat.Db.Schema.{Db}
use alter_chat.Onion.{OnionLayer}
use alter_chat.Traffic.{PowBanList}
use alter_chat.Base.Equality.{string_eq}
use alter_chat.Node.Types.{PmPayload, World, Moment, Node, Effect, respond}
use alter_chat.Node.Policy.{Verdict, served, refused, rate_limited, trusts}
use alter_chat.Node.Files.{serve_file, serve_file_chunk, store_chunk}
use alter_chat.Traffic.{record_failure}
use alter_chat.FileTransfer.{onion_ack}
use alter_chat.Node.Direct.{
  conclude, is_accepted, pow_threshold, serve_private_message, serve_ratchet_private_message,
  serve_x3dh_dm, pow_refusal,
}
use alter_chat.Node.Relay.{serve_onion_forward, serve_packet, serve_layer, forward_layer}
use alter_chat.Node.Requests.{serve, on_verdict, handle_request}

-- The responses among what goes out, in order.
unfoldable pub responses : List Effect → List P2pResponse
responses [] = []
responses (respond r ∷ effects) = r ∷ responses effects
responses (e ∷ effects) = responses effects

-- One response goes out, and it is of the request's kind.
pub IsAnswered : P2pRequest → List Effect → Type 0
IsAnswered request effects = (r : P2pResponse) × (responses effects ≡ r ∷ []) × Answers request r

serve_file-IsAnswered :
    (peer filename : String) (content : Bytes) (conn : Option Db)
    → IsAnswered (file filename content) (serve_file peer filename content conn).0
unfolding serve_file responses IsAnswered
serve_file-IsAnswered peer filename content none = (_, refl, to_file)
serve_file-IsAnswered peer filename content (some db) =
    elim (Bool-cases (trusts "min_trust_file" peer db).0) [
      | inl e ↦ rw e (_, refl, to_file)
      | inr e ↦ rw e (_, refl, to_file)
    ]

conclude-IsAnswered :
    {request : P2pRequest} (ack : Bool → P2pResponse)
    (answers : (b : Bool) → Answers request (ack b)) (conn : Option Db)
    (outcome : Option (PmPayload × Db))
    → IsAnswered request (conclude ack conn outcome).0
unfolding conclude responses IsAnswered
conclude-IsAnswered ack answers conn none = (_, refl, answers false)
conclude-IsAnswered ack answers conn (some _) = (_, refl, answers true)

module _ (W : World) (m : Moment) where
  store_chunk_silent :
      (db_path : Option String) (transfer_id : String) (index : ℕ) (hash : String) (content : Bytes)
      (db : Db) (rest : List Effect)
      → responses ((store_chunk W.E.C m db_path transfer_id index hash content db).1 ++ rest)
        ≡ responses rest
  unfolding store_chunk responses
  store_chunk_silent db_path transfer_id index hash content db rest = ground arith

  serve_file_chunk-IsAnswered :
      (db_path : Option String) (peer transfer_id : String) (index total : ℕ) (hash : String)
      (content : Bytes) (conn : Option Db)
      → IsAnswered
          (file_chunk transfer_id index total hash content)
          (serve_file_chunk W.E.C m db_path peer transfer_id index hash content conn).0
  unfolding serve_file_chunk responses IsAnswered
  serve_file_chunk-IsAnswered db_path peer transfer_id index total hash content none =
      (_, refl, to_file_chunk)
  serve_file_chunk-IsAnswered db_path peer transfer_id index total hash content (some db) =
      elim (Bool-cases (trusts "min_trust_file" peer db).0) [
        | inl e ↦ rw e (
          _,
          store_chunk_silent db_path transfer_id index hash content
              (trusts "min_trust_file" peer db).1 _,
          to_file_chunk,
        )
        | inr e ↦ rw e (_, refl, to_file_chunk)
      ]

  serve_private_message-IsAnswered :
      (my_peer_id peer words nick : String) (timestamp : ℤ) (ttl : Option ℤ)
      (token : Option PowToken) (ban : PowBanList) (conn : Option Db)
      → IsAnswered
          (private_message words nick timestamp ttl token)
          (serve_private_message W m my_peer_id peer words nick timestamp ttl token ban conn).0
  unfolding serve_private_message responses IsAnswered pow_refusal
  serve_private_message-IsAnswered my_peer_id peer words nick timestamp ttl token ban none =
      (_, refl, to_private_message)
  serve_private_message-IsAnswered my_peer_id peer words nick timestamp ttl token ban (some db) =
      elim (Bool-cases (is_accepted W m my_peer_id peer token db)) [
        | inl e ↦ elim (Bool-cases (trusts "min_trust_dm" peer db).0) [
          | inl f ↦ rw (e, f) (_, refl, to_private_message)
          | inr f ↦ rw (e, f) (_, refl, to_private_message)
        ]
        | inr e ↦ elim (Bool-cases (record_failure peer pow_threshold ban).1) [
          | inl f ↦ rw (e, f) (_, refl, to_private_message)
          | inr f ↦ rw (e, f) (_, refl, to_private_message)
        ]
      ]

  serve_ratchet_private_message-IsAnswered :
      (my_peer_id : String) (secret : Bytes) (peer : String) (envelope : Bytes) (nick : String)
      (timestamp : ℤ) (ttl : Option ℤ) (conn : Option Db)
      → IsAnswered
          (ratchet_private_message envelope nick timestamp ttl)
          (serve_ratchet_private_message W m my_peer_id secret peer envelope nick timestamp ttl
            conn).0
  unfolding serve_ratchet_private_message
  serve_ratchet_private_message-IsAnswered my_peer_id secret peer envelope nick timestamp ttl conn =
      conclude-IsAnswered _ (λ b. to_ratchet_private_message) conn _

  serve_x3dh_dm-IsAnswered :
      (my_peer_id : String) (secret : Bytes) (peer : String) (init_msg : Option Bytes)
      (envelope dh_pub : Bytes) (nick : String) (timestamp : ℤ) (ttl : Option ℤ) (conn : Option Db)
      → IsAnswered
          (x3dh_dm init_msg envelope dh_pub nick timestamp ttl)
          (serve_x3dh_dm W m my_peer_id secret peer envelope nick timestamp ttl conn).0
  unfolding serve_x3dh_dm
  serve_x3dh_dm-IsAnswered my_peer_id secret peer init_msg envelope dh_pub nick timestamp ttl conn =
      conclude-IsAnswered _ (λ b. to_x3dh_dm) conn _

  forward_layer_silent :
      (peer next_hop : String) (layer : OnionLayer)
      → responses (forward_layer W peer next_hop layer) ≡ []
  unfolding forward_layer responses Option.bind
  forward_layer_silent peer next_hop layer = ground arith

  serve_packet_silent :
      (my_peer_id : String) (secret : Bytes) (peer : String) (packet : Bytes) (conn : Option Db)
      → responses (serve_packet W m my_peer_id secret peer packet conn).0 ≡ []
  unfolding serve_packet serve_layer responses
  serve_packet_silent my_peer_id secret peer packet conn = grind (arith, forward_layer_silent)

  pub serve-IsAnswered :
      (peer : String) (request : P2pRequest) (node : Node W)
      → IsAnswered request (serve W m peer request node).0
  unfolding serve serve_onion_forward responses IsAnswered
  serve-IsAnswered peer (file filename content) node =
      serve_file-IsAnswered peer filename content node.conn
  serve-IsAnswered peer (file_chunk transfer_id index total hash content) node =
      serve_file_chunk-IsAnswered node.db_path peer transfer_id index total hash content node.conn
  serve-IsAnswered peer (webrtc_signal words) node = (_, refl, to_webrtc_signal)
  serve-IsAnswered peer (private_message words nick timestamp ttl token) node =
      serve_private_message-IsAnswered node.peer_id peer words nick timestamp ttl token node.pow_ban
        node.conn
  serve-IsAnswered peer (ratchet_private_message envelope nick timestamp ttl) node =
      serve_ratchet_private_message-IsAnswered node.peer_id node.offline_secret peer envelope nick
        timestamp ttl node.conn
  serve-IsAnswered peer (x3dh_dm init_msg envelope dh_pub nick timestamp ttl) node =
      serve_x3dh_dm-IsAnswered node.peer_id node.offline_secret peer init_msg envelope dh_pub nick
        timestamp ttl node.conn
  serve-IsAnswered peer (capability_announcement peer_id s r d v score versions) node =
      (_, refl, to_capability_announcement)
  serve-IsAnswered peer (onion_forward packet) node = (
    _,
    ap (◌∷◌ (onion_ack true))
        (serve_packet_silent node.peer_id node.offline_secret peer packet node.conn),
    to_onion_forward,
  )
  serve-IsAnswered peer (plugin_event plugin_id event_json) node = (_, refl, to_plugin_event)
  serve-IsAnswered peer (pow_challenge challenge_id bits nonce) node = (_, refl, to_pow_challenge)
  serve-IsAnswered peer (pow_solution challenge_id solution) node = (_, refl, to_pow_solution)

  pub on_verdict-IsAnswered :
      (verdict : Verdict) (peer : String) (request : P2pRequest) (node : Node W)
      → IsAnswered request (on_verdict W verdict m peer request node).0
  unfolding on_verdict responses IsAnswered
  on_verdict-IsAnswered served peer request node = serve-IsAnswered peer request node
  on_verdict-IsAnswered refused peer request node = (_, refl, Answers-rejection_for_request request)
  on_verdict-IsAnswered rate_limited peer request node =
      (_, refl, Answers-rejection_for_request request)

-- A node whose network has started answers each request exactly once, whatever the request is and
-- whoever sends it, with the response that belongs to it; the answer to a chunk names the chunk.
pub handle_request-IsAnswered :
    (W : World) (m : Moment) (peer : String) (request : P2pRequest) (node : Node W)
    → node.swarm ≡ true
    → IsAnswered request (handle_request W m peer request node).0
unfolding handle_request
handle_request-IsAnswered W m peer request node started = elim (Option-cases node.conn) [
  | inl e ↦ rw (started, e) (serve-IsAnswered W m peer request _)
  | inr (db, e) ↦ rw (started, e) (on_verdict-IsAnswered W m _ peer request _)
]
