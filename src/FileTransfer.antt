-- ===== src/FileTransfer.antt =====
-- The requests between two nodes and their responses (alterchat-core/src/file_transfer.rs), and the
-- refusal of a request (`rejection_for_request` of alterchat-ui/src-tauri/src/lib.rs).
use alter_chat.Base.{ℕ, String, Bool, false, Option, List}
use alter_chat.Base.Bytes.{Bytes}
use alter_chat.Int.{ℤ}
use alter_chat.Pow.{PowToken}

pub data P2pRequest : Type 0 where
  file : (filename : String) (data_bytes : Bytes) → P2pRequest
  file_chunk :
      (transfer_id : String) (index total : ℕ) (content_hash : String) (data_bytes : Bytes)
      → P2pRequest
  webrtc_signal : (signal : String) → P2pRequest
  private_message :
      (text sender_nick : String) (timestamp : ℤ) (ttl : Option ℤ) (pow_token : Option PowToken)
      → P2pRequest
  ratchet_private_message :
      (envelope : Bytes) (sender_nick : String) (timestamp : ℤ) (ttl : Option ℤ) → P2pRequest
  x3dh_dm :
      (init_msg : Option Bytes) (dr_envelope sender_dh_pub : Bytes) (sender_nick : String)
      (timestamp : ℤ) (ttl : Option ℤ)
      → P2pRequest
  capability_announcement :
      (peer_id : String) (storage_node relay_node dht_server media_relay : Bool)
      (capacity_score : ℕ) (protocol_versions : List String)
      → P2pRequest
  onion_forward : (packet : Bytes) → P2pRequest
  plugin_event : (plugin_id event_json : String) → P2pRequest
  pow_challenge : (challenge_id : String) (difficulty_bits : ℕ) (nonce : Bytes) → P2pRequest
  pow_solution : (challenge_id : String) (solution : Bytes) → P2pRequest

pub data P2pResponse : Type 0 where
  file_ack : (success : Bool) (message : String) → P2pResponse
  file_chunk_ack : (transfer_id : String) (index : ℕ) (success : Bool) → P2pResponse
  webrtc_ack : (success : Bool) → P2pResponse
  private_message_ack : (success : Bool) → P2pResponse
  ratchet_private_message_ack : (success : Bool) → P2pResponse
  x3dh_dm_ack : (success : Bool) → P2pResponse
  capability_ack : (success : Bool) → P2pResponse
  onion_ack : (success : Bool) → P2pResponse
  plugin_event_ack : (success : Bool) → P2pResponse
  pow_ack : (success : Bool) → P2pResponse

unfoldable pub rejection_for_request : P2pRequest → P2pResponse
rejection_for_request (file filename content) = file_ack false "local policy rejected request"
rejection_for_request (file_chunk transfer_id index total content_hash content) =
    file_chunk_ack transfer_id index false
rejection_for_request (webrtc_signal signal) = webrtc_ack false
rejection_for_request (private_message text nick timestamp ttl token) = private_message_ack false
rejection_for_request (ratchet_private_message envelope nick timestamp ttl) =
    ratchet_private_message_ack false
rejection_for_request (x3dh_dm init_msg envelope dh_pub nick timestamp ttl) = x3dh_dm_ack false
rejection_for_request (capability_announcement peer_id s r d m score versions) =
    capability_ack false
rejection_for_request (onion_forward packet) = onion_ack false
rejection_for_request (plugin_event plugin_id event_json) = plugin_event_ack false
rejection_for_request (pow_challenge challenge_id bits nonce) = pow_ack false
rejection_for_request (pow_solution challenge_id solution) = pow_ack false

-- What a response says of its request: that it was served.
unfoldable pub succeeded : P2pResponse → Bool
succeeded (file_ack success message) = success
succeeded (file_chunk_ack transfer_id index success) = success
succeeded (webrtc_ack success) = success
succeeded (private_message_ack success) = success
succeeded (ratchet_private_message_ack success) = success
succeeded (x3dh_dm_ack success) = success
succeeded (capability_ack success) = success
succeeded (onion_ack success) = success
succeeded (plugin_event_ack success) = success
succeeded (pow_ack success) = success

-- The responses that belong to a request: a chunk's names the chunk.
pub data Answers : P2pRequest → P2pResponse → Type 0 where
  to_file :
      {filename message : String} {content : Bytes} {b : Bool}
      → Answers (file filename content) (file_ack b message)
  to_file_chunk :
      {transfer_id content_hash : String} {index total : ℕ} {content : Bytes} {b : Bool}
      → Answers
          (file_chunk transfer_id index total content_hash content)
          (file_chunk_ack transfer_id index b)
  to_webrtc_signal : {signal : String} {b : Bool} → Answers (webrtc_signal signal) (webrtc_ack b)
  to_private_message :
      {text nick : String} {timestamp : ℤ} {ttl : Option ℤ} {token : Option PowToken} {b : Bool}
      → Answers (private_message text nick timestamp ttl token) (private_message_ack b)
  to_ratchet_private_message :
      {envelope : Bytes} {nick : String} {timestamp : ℤ} {ttl : Option ℤ} {b : Bool}
      → Answers
          (ratchet_private_message envelope nick timestamp ttl)
          (ratchet_private_message_ack b)
  to_x3dh_dm :
      {init_msg : Option Bytes} {envelope dh_pub : Bytes} {nick : String} {timestamp : ℤ}
      {ttl : Option ℤ} {b : Bool}
      → Answers (x3dh_dm init_msg envelope dh_pub nick timestamp ttl) (x3dh_dm_ack b)
  to_capability_announcement :
      {peer_id : String} {s r d m b : Bool} {score : ℕ} {versions : List String}
      → Answers (capability_announcement peer_id s r d m score versions) (capability_ack b)
  to_onion_forward : {packet : Bytes} {b : Bool} → Answers (onion_forward packet) (onion_ack b)
  to_plugin_event :
      {plugin_id event_json : String} {b : Bool}
      → Answers (plugin_event plugin_id event_json) (plugin_event_ack b)
  to_pow_challenge :
      {challenge_id : String} {bits : ℕ} {nonce : Bytes} {b : Bool}
      → Answers (pow_challenge challenge_id bits nonce) (pow_ack b)
  to_pow_solution :
      {challenge_id : String} {solution : Bytes} {b : Bool}
      → Answers (pow_solution challenge_id solution) (pow_ack b)

pub Answers-rejection_for_request :
    (request : P2pRequest) → Answers request (rejection_for_request request)
unfolding rejection_for_request
Answers-rejection_for_request (file filename content) = to_file
Answers-rejection_for_request (file_chunk transfer_id index total content_hash content) =
    to_file_chunk
Answers-rejection_for_request (webrtc_signal signal) = to_webrtc_signal
Answers-rejection_for_request (private_message text nick timestamp ttl token) = to_private_message
Answers-rejection_for_request (ratchet_private_message envelope nick timestamp ttl) =
    to_ratchet_private_message
Answers-rejection_for_request (x3dh_dm init_msg envelope dh_pub nick timestamp ttl) = to_x3dh_dm
Answers-rejection_for_request (capability_announcement peer_id s r d m score versions) =
    to_capability_announcement
Answers-rejection_for_request (onion_forward packet) = to_onion_forward
Answers-rejection_for_request (plugin_event plugin_id event_json) = to_plugin_event
Answers-rejection_for_request (pow_challenge challenge_id bits nonce) = to_pow_challenge
Answers-rejection_for_request (pow_solution challenge_id solution) = to_pow_solution
