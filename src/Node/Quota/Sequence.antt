-- ===== src/Node/Quota/Sequence.antt =====
-- The bound on the storage under the requests that come in (alterchat-ui/src-tauri/src/lib.rs).
use alter_chat.Base.{
  ℕ, ◌<◌, ◌^◌, String, Option, none, some, List, [], ◌∷◌, ap, inl, inr, Bool-cases, Option-cases,
  length,
}
use alter_chat.Base.Equality.{string_eq}
use alter_chat.Base.Bytes.{Bytes}
use alter_chat.Db.Schema.{Db}
use alter_chat.Node.Kept.{
  lent-admit, lent-trusts, lent_of-serve_file, lent_of-serve_private_message,
  lent_of-serve_ratchet_private_message, lent_of-serve_x3dh_dm, lent_of-save_capability,
  lent_of-serve_onion_forward,
}
use alter_chat.FileTransfer.{
  P2pRequest, file, file_chunk, webrtc_signal, private_message, ratchet_private_message, x3dh_dm,
  capability_announcement, onion_forward, plugin_event, pow_challenge, pow_solution,
}
use alter_chat.Node.Policy.{Verdict, served, refused, rate_limited, trusts}
use alter_chat.Node.Requests.{serve, on_verdict, handle_request}
use alter_chat.Node.Types.{World, Moment, Node}
use alter_chat.Node.Files.{serve_file_chunk}
use alter_chat.Node.Quota.{IsBounded, IsBounded-of_lent_of, carried, store_chunk-IsBounded}

serve_file_chunk-IsBounded :
    (W : World) (m : Moment) (db_path : Option String) (peer transfer_id : String) (index : ℕ)
    (hash : String) (content : Bytes) (conn : Option Db)
    → length content < 2 ^ 62
    → IsBounded conn
    → IsBounded (serve_file_chunk W.E.C m db_path peer transfer_id index hash content conn).1
unfolding serve_file_chunk
serve_file_chunk-IsBounded W m db_path peer transfer_id index hash content none small h = h
serve_file_chunk-IsBounded W m db_path peer transfer_id index hash content (some db) small h =
    let seen =
      IsBounded-of_lent_of (some db) (some (trusts "min_trust_file" peer db).1)
        (ap some (lent-trusts "min_trust_file" peer db)) h in
    elim (Bool-cases (trusts "min_trust_file" peer db).0) [
      | inl e ↦ rw e (
          store_chunk-IsBounded W m db_path transfer_id index hash content
            (trusts "min_trust_file" peer db).1 small seen)
      | inr e ↦ rw e seen
    ]

module _ (W : World) (m : Moment) where
  serve-IsBounded :
      (peer : String) (request : P2pRequest) (node : Node W)
      → carried request < 2 ^ 62
      → IsBounded node.conn
      → IsBounded (serve W m peer request node).1.conn
  unfolding serve carried
  serve-IsBounded peer (file filename content) node small h =
      IsBounded-of_lent_of node.conn _ (lent_of-serve_file W m peer filename content node.conn) h
  serve-IsBounded peer (file_chunk transfer_id index total hash content) node small h =
      serve_file_chunk-IsBounded W m node.db_path peer transfer_id index hash content node.conn
        small h
  serve-IsBounded peer (webrtc_signal words) node small h = h
  serve-IsBounded peer (private_message words nick timestamp ttl token) node small h =
      IsBounded-of_lent_of node.conn _
        (lent_of-serve_private_message W m node.peer_id peer words nick timestamp ttl token
          node.pow_ban node.conn)
        h
  serve-IsBounded peer (ratchet_private_message envelope nick timestamp ttl) node small h =
      IsBounded-of_lent_of node.conn _
        (lent_of-serve_ratchet_private_message W m node.peer_id node.offline_secret peer envelope
          nick timestamp ttl node.conn)
        h
  serve-IsBounded peer (x3dh_dm init_msg envelope dh_pub nick timestamp ttl) node small h =
      IsBounded-of_lent_of node.conn _
        (lent_of-serve_x3dh_dm W m node.peer_id node.offline_secret peer envelope nick timestamp ttl
          node.conn)
        h
  serve-IsBounded peer (capability_announcement peer_id s r d v score versions) node small h =
      IsBounded-of_lent_of node.conn _
        (lent_of-save_capability W m peer_id s r d v score versions node.conn) h
  serve-IsBounded peer (onion_forward packet) node small h =
      IsBounded-of_lent_of node.conn _
        (lent_of-serve_onion_forward W m node.peer_id node.offline_secret peer packet node.conn) h
  serve-IsBounded peer (plugin_event plugin_id event_json) node small h = h
  serve-IsBounded peer (pow_challenge challenge_id bits nonce) node small h = h
  serve-IsBounded peer (pow_solution challenge_id solution) node small h = h

  on_verdict-IsBounded :
      (verdict : Verdict) (peer : String) (request : P2pRequest) (node : Node W)
      → carried request < 2 ^ 62
      → IsBounded node.conn
      → IsBounded (on_verdict W verdict m peer request node).1.conn
  unfolding on_verdict
  on_verdict-IsBounded served peer request node small h = serve-IsBounded peer request node small h
  on_verdict-IsBounded refused peer request node small h = h
  on_verdict-IsBounded rate_limited peer request node small h = h

  handle_request-IsBounded :
      (peer : String) (request : P2pRequest) (node : Node W)
      → carried request < 2 ^ 62
      → IsBounded node.conn
      → IsBounded (handle_request W m peer request node).1.conn
  unfolding handle_request
  handle_request-IsBounded peer request node small h = elim (Bool-cases node.swarm) [
    | inr off ↦ rw off h
    | inl on ↦ elim (Option-cases node.conn) [
      | inl e ↦ rw (on, e) (serve-IsBounded peer request node small h)
      | inr (db, e) ↦
          rw (on, e)
            (on_verdict-IsBounded _ peer request _ small (
              IsBounded-of_lent_of (some db) _
                (ap some (lent-admit m.now peer node.config node.rate_buckets db)) (rw e at h)))
    ]
  ]

-- Requests of any peers, one after the other, each with its moment.
unfoldable pub handle_all : (W : World) → List (Moment × String × P2pRequest) → Node W → Node W
handle_all W [] node = node
handle_all W ((m, peer, request) ∷ calls) node =
    handle_all W calls (handle_request W m peer request node).1

-- No request of a list carries 2 ^ 62 bytes or more.
unfoldable pub IsSmall : List (Moment × String × P2pRequest) → Type 0
IsSmall [] = Unit {0}
IsSmall ((m, peer, request) ∷ calls) = (carried request < 2 ^ 62) × IsSmall calls

-- Whatever requests come in, from whomever and in whatever order, the chunks that the node stores
-- for its peers stay within the quota of its settings, and no size falls below zero, if both hold
-- at first, the quota is at most 2^62 bytes and no chunk has 2^62 bytes or more.
pub handle_all-IsBounded :
    (W : World) (calls : List (Moment × String × P2pRequest)) (node : Node W)
    → IsSmall calls
    → IsBounded node.conn
    → IsBounded (handle_all W calls node).conn
unfolding handle_all IsSmall
handle_all-IsBounded W [] node small h = h
handle_all-IsBounded W ((m, peer, request) ∷ calls) node (small, rest) h =
    handle_all-IsBounded W calls _ rest (handle_request-IsBounded W m peer request node small h)
