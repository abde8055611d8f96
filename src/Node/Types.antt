-- ===== src/Node/Types.antt =====
-- The event loop's data (`run` of alterchat-ui/src-tauri/src/lib.rs): the variables of the loop, what
-- it sends out, and the libraries it stands on. A peer is the text of its id.
use alter_chat.Base.{ℕ, String, Bool, Option, none, some, List, eqb, if◌then◌else◌, length}
use mathlib.Core.Option
use alter_chat.Base.Bytes.{Bytes}
use alter_chat.Int.{ℤ}
use alter_chat.Ratchet.{RatchetState, RatchetEnvelope}
use alter_chat.DoubleRatchet.{DrState, DrEnvelope}
use alter_chat.Envelope.{EncryptedPayload, SealedMessage, SealedCodec}
use alter_chat.Onion.{OnionPacket, OnionCodec}
use alter_chat.Traffic.{PowBanList}
use alter_chat.Governance.Types.{RevocationAnnouncement}
use alter_chat.FileTransfer.{P2pRequest, P2pResponse}
use alter_chat.Crdt.{Automerge, Room}
use alter_chat.Db.Json.{Json}
use alter_chat.Db.Schema.{Db}
use alter_chat.X3dh.{Kem, PreKeyBundle}
use alter_chat.Network.{NetworkPrivacyConfig}
use alter_chat.Desk.Env.{Env}
use alter_chat.Desk.Config.{FullConfig}
use alter_chat.Desk.RateLimit.{Buckets}
use alter_chat.Desk.Sessions.{Bincode}

-- A message of a room, as the windows get it.
pub record ChatMessage : Type 0 where
  pub peer_id : String
  pub sender : String
  pub text : String
  pub timestamp : ℤ
  pub ttl : Option ℤ

pub record PmPayload : Type 0 where
  pub peer_id : String
  pub sender_nick : String
  pub text : String
  pub timestamp : ℤ
  pub ttl : Option ℤ

-- A message left in a mailbox.
pub record OfflineMsg : Type 0 where
  pub sender_peer_id : String
  pub sender_nick : String
  pub text : String
  pub timestamp : ℤ
  pub ttl : Option ℤ
  pub nonce : Bytes

-- What comes with an event for the windows.
pub data Payload : Type 0 where
  text : String → Payload
  texts : String → String → Payload
  sized : String → ℕ → Payload
  chunk : String → ℕ → ℕ → Payload
  signal : (peer_id signal : String) → Payload
  capability : (peer_id : String) (capacity_score : ℕ) → Payload
  private : PmPayload → Payload
  chat : ChatMessage → Payload
  history : List ChatMessage → Payload

-- What the loop does outside its variables, in order. A file that is written has its directory made
-- first.
pub data Effect : Type 0 where
  emit : String → Payload → Effect
  respond : P2pResponse → Effect
  send_request : String → P2pRequest → Effect
  publish : String → Bytes → Effect
  subscribe : String → Effect
  unsubscribe : String → Effect
  put_record : Bytes → Bytes → Effect
  get_record : Bytes → Effect
  dial : String → Effect
  add_address : String → String → Effect
  bootstrap : Effect
  remove_peer : String → Effect
  add_explicit_peer : String → Effect
  remove_explicit_peer : String → Effect
  start_providing : Bytes → Effect
  get_providers : Bytes → Effect
  listen_on : String → Effect
  write_file : String → Bytes → Effect
  sleep : ℕ → Effect

-- The libraries: encodings, the parsers of peers' ids and addresses, hexadecimal numbers, UTF-8,
-- PBKDF2, the secret of a keypair, and whether a network starts with a configuration.
pub record World : Type 1 where
  pub E : Env
  pub A : Automerge
  pub pbkdf2 : Bytes → Bytes → ℕ → Bytes
  pub ratchets : Bincode RatchetState
  pub sessions : Bincode DrState
  pub ratchet_envelopes : Bincode RatchetEnvelope
  pub dr_envelopes : Bincode DrEnvelope
  pub requests : Bincode P2pRequest
  pub payloads : Bincode EncryptedPayload
  pub sealed : Bincode SealedMessage
  pub sealed_inner : SealedCodec
  pub packets : Bincode OnionPacket
  pub layers : OnionCodec
  pub offline : Bincode OfflineMsg
  pub revocations : Bincode RevocationAnnouncement
  pub strings : Json (List String)
  pub kem : Kem
  pub bundles : Json PreKeyBundle
  pub hex_encode : Bytes → String
  pub hex_decode : String → Option Bytes
  pub from_utf8 : Bytes → Option String
  pub parse_peer : String → Bool
  pub parse_addr : String → Bool
  pub ed25519_secret : E.S.Keypair → Bytes
  pub create_swarm : NetworkPrivacyConfig → Bool

-- What one turn of the loop reads from outside: the clocks, the random values in the order in which
-- they are drawn, and whether a file can be written.
pub record Moment : Type 0 where
  pub now : ℤ
  pub seconds : ℕ
  pub draw : ℕ → Bytes
  pub writable : String → Bool

-- The variables of the loop. `swarm` says that the network has started; the variables of the topic
-- and of its name are one.
pub record Node (W : World) : Type 0 where
  pub swarm : Bool
  pub conn : Option Db
  pub db_path : Option String
  pub peer_id : String
  pub offline_secret : Bytes
  pub keypair : Option W.E.S.Keypair
  pub topic : String
  pub room : Room W.A
  pub cover_traffic : Bool
  pub msg_delay : Bool
  pub mdns : Bool
  pub config : FullConfig
  pub rate_buckets : Buckets
  pub pow_ban : PowBanList

unfoldable pub decode_x25519_hex : World → String → Option Bytes
decode_x25519_hex W hex_key =
    Option.bind (W.hex_decode hex_key) (λ bytes. if eqb (length bytes) 32 then some bytes else none)
