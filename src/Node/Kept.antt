-- ===== src/Node/Kept.antt =====
-- The parts of the database that the requests of a kind leave alone
-- (alterchat-ui/src-tauri/src/lib.rs).
use alter_chat.Base.{
  ℕ, String, Bool, false, Option, none, some, List, ◌≡◌, refl, ap, ◌∙◌, arith, inl, inr,
  Option-cases, ◌<>◌,
}
use mathlib.Core.Option
use alter_chat.Base.Bytes.{Bytes}
use alter_chat.Base.Result.{Result-cases}
use alter_chat.Int.{ℤ}
use alter_chat.Pow.{PowToken}
use alter_chat.Traffic.{PowBanList}
use alter_chat.Db.Rows.{ChunkRow, StorageSettings}
use alter_chat.Db.Schema.{Db}
use alter_chat.Db.Settings.{get_peer_settings}
use alter_chat.Db.Messages.{save_private_message}
use alter_chat.Db.Messages
use alter_chat.Db.Nodes.{save_capability, put_capability}
use alter_chat.Desk.Access.{peer_can_contact}
use alter_chat.Desk.Config.{FullConfig}
use alter_chat.Desk.RateLimit.{Buckets}
use alter_chat.Desk.Sessions.{Bincode, store_state, save_ratchet_state, save_dr_state}
use alter_chat.Onion.{OnionLayer}
use alter_chat.Envelope.{sealed_receive}
use alter_chat.FileTransfer.{P2pRequest, P2pResponse, ratchet_private_message}
use alter_chat.Base.Result.{bind-eq-some}
use alter_chat.Node.Received.{receive_ratchet_message_inv, receive_x3dh_message_inv}
use alter_chat.Node.Types.{World, Moment, PmPayload}
use alter_chat.Node.Policy.{admit, trusts}
use alter_chat.Node.Files.{serve_file}
use alter_chat.Node.Direct.{
  serve_private_message, receive_ratchet_message, receive_x3dh_message,
  serve_ratchet_private_message, serve_x3dh_dm, conclude,
}
use alter_chat.Node.Relay.{
  open_payload, receive_inner, serve_layer, serve_packet, serve_onion_forward,
}

-- The storage node's part: its chunks and its settings.
unfoldable pub lent : Db → List ChunkRow × Option StorageSettings
lent db = (db.stored_chunks, db.storage_settings)

pub lent-admit :
    (now : ℤ) (peer : String) (config : FullConfig) (buckets : Buckets) (db : Db)
    → lent (admit now peer config buckets db).2 ≡ lent db
unfolding lent admit get_peer_settings peer_can_contact
lent-admit now peer config buckets db = ground arith

pub lent-trusts : (min_trust peer : String) (db : Db) → lent (trusts min_trust peer db).1 ≡ lent db
unfolding lent trusts get_peer_settings
lent-trusts min_trust peer db = refl

lent-save_private_message :
    (peer : String) (mine : Bool) (words : String) (timestamp : ℤ) (ttl : Option ℤ) (db : Db)
    → lent (save_private_message peer mine words timestamp ttl db) ≡ lent db
unfolding lent save_private_message
lent-save_private_message peer mine words timestamp ttl db = refl

lent-store_state :
    {T : Type 0} (B : Bincode T) (now : ℤ) (key : String) (state : T) (db : Db)
    → lent (store_state B now key state db) ≡ lent db
unfolding lent store_state Messages.save_ratchet_state
lent-store_state B now key state db = ground arith

module _ (W : World) (m : Moment) (my_peer_id : String) (secret : Bytes) (peer : String)
    (envelope : Bytes) (nick : String) (timestamp : ℤ) (ttl : Option ℤ) (db : Db) where
  pub lent-receive_ratchet_message :
      {out : PmPayload × Db}
      → receive_ratchet_message W m my_peer_id secret peer envelope nick timestamp ttl db ≡ some out
      → lent out.1 ≡ lent db
  unfolding save_ratchet_state
  lent-receive_ratchet_message h =
      let (_, _, words, st, _, _, _, _, _, _, after) =
        receive_ratchet_message_inv W m my_peer_id secret peer envelope nick timestamp ttl db h in
      ap lent after
      ∙ (lent-store_state W.ratchets m.now peer st
            (save_private_message peer false words timestamp ttl db)
          ∙ lent-save_private_message peer false words timestamp ttl db)

  pub lent-receive_x3dh_message :
      {out : PmPayload × Db}
      → receive_x3dh_message W m my_peer_id secret peer envelope nick timestamp ttl db ≡ some out
      → lent out.1 ≡ lent db
  unfolding save_dr_state
  lent-receive_x3dh_message h =
      let (_, _, words, st, _, _, _, _, _, _, after) =
        receive_x3dh_message_inv W m my_peer_id secret peer envelope nick timestamp ttl db h in
      ap lent after
      ∙ (lent-store_state W.sessions m.now ("dr:" <> peer) st
            (save_private_message peer false words timestamp ttl db)
          ∙ lent-save_private_message peer false words timestamp ttl db)

-- What is left alone, if there is a database.
abbrev pub lent_of : Option Db → Option (List ChunkRow × Option StorageSettings)
lent_of conn = Option.map lent conn

pub lent_of-conclude :
    (ack : Bool → P2pResponse) (conn : Option Db) (receive : Db → Option (PmPayload × Db))
    → ((db : Db) (out : PmPayload × Db) → receive db ≡ some out → lent out.1 ≡ lent db)
    → lent_of (conclude ack conn (Option.bind conn receive)).1 ≡ lent_of conn
unfolding conclude Option.bind
lent_of-conclude ack none receive keeps = refl
lent_of-conclude ack (some db) receive keeps = elim (Option-cases (receive db)) [
  | inl e ↦ rw e refl
  | inr (out, e) ↦ rw e (ap some (keeps db out e))
]

module _ (W : World) (m : Moment) where
  pub lent_of-serve_private_message :
      (my_peer_id peer words nick : String) (timestamp : ℤ) (ttl : Option ℤ)
      (token : Option PowToken) (ban : PowBanList) (conn : Option Db)
      → lent_of
          (serve_private_message W m my_peer_id peer words nick timestamp ttl token ban conn).2
        ≡ lent_of conn
  unfolding serve_private_message lent save_private_message trusts get_peer_settings
  lent_of-serve_private_message my_peer_id peer words nick timestamp ttl token ban none = refl
  lent_of-serve_private_message my_peer_id peer words nick timestamp ttl token ban (some db) =
      ground arith

  lent-receive_inner :
      (my_peer_id : String) (secret : Bytes) (sender : String) (request : P2pRequest) (db : Db)
      {out : PmPayload × Db}
      → receive_inner W m my_peer_id secret sender request db ≡ some out
      → lent out.1 ≡ lent db
  unfolding receive_inner
  lent-receive_inner my_peer_id secret sender (ratchet_private_message envelope nick timestamp ttl)
        db h =
      lent-receive_ratchet_message W m my_peer_id secret sender envelope nick timestamp ttl db h
  lent-receive_inner my_peer_id secret sender request db h = absurd (ground (arith, h))

  lent-open_payload :
      (my_peer_id : String) (secret payload : Bytes) (db : Db) {out : PmPayload × Db}
      → open_payload W m my_peer_id secret payload db ≡ some out
      → lent out.1 ≡ lent db
  unfolding open_payload
  lent-open_payload my_peer_id secret payload db h =
      let (msg, parsed, h₁) = bind-eq-some _ _ h in
      elim (Result-cases (sealed_receive W.E.C W.sealed_inner secret msg)) [
        | inl (e, shut) ↦ absurd (ground (arith, shut, h₁))
        | inr ((key, sender, inner), opened) ↦
            let (request, read, h₂) =
              bind-eq-some (W.requests.deserialize inner) _ (rw opened at h₁) in
            lent-receive_inner my_peer_id secret sender request db h₂
      ]

  lent_of-serve_layer :
      (my_peer_id : String) (secret : Bytes) (peer : String) (layer : OnionLayer) (conn : Option Db)
      → lent_of (serve_layer W m my_peer_id secret peer layer conn).1 ≡ lent_of conn
  unfolding serve_layer Option.bind
  lent_of-serve_layer my_peer_id secret peer layer none = ground arith
  lent_of-serve_layer my_peer_id secret peer layer (some db) = elim (Option-cases layer.next_hop) [
    | inr (next_hop, e) ↦ rw e refl
    | inl e ↦ elim (Option-cases layer.payload) [
      | inl f ↦ rw (e, f) refl
      | inr (payload, f) ↦ elim (Option-cases (open_payload W m my_peer_id secret payload db)) [
        | inl g ↦ ground (arith, e, f, g)
        | inr (out, g) ↦ ground (arith, e, f, g, lent-open_payload my_peer_id secret payload db g)
      ]
    ]
  ]

  pub lent_of-serve_onion_forward :
      (my_peer_id : String) (secret : Bytes) (peer : String) (packet : Bytes) (conn : Option Db)
      → lent_of (serve_onion_forward W m my_peer_id secret peer packet conn).1 ≡ lent_of conn
  unfolding serve_onion_forward serve_packet
  lent_of-serve_onion_forward my_peer_id secret peer packet conn =
      grind (arith, lent_of-serve_layer)

  pub lent_of-save_capability :
      (peer_id : String) (s r d v : Bool) (score : ℕ) (versions : List String) (conn : Option Db)
      → lent_of (
          Option.map
            (λ db. (save_capability W.strings m.now peer_id s r d v score versions db).1)
            conn)
        ≡ lent_of conn
  unfolding save_capability put_capability lent
  lent_of-save_capability peer_id s r d v score versions none = refl
  lent_of-save_capability peer_id s r d v score versions (some db) = ground arith

  pub lent_of-serve_file :
      (peer filename : String) (content : Bytes) (conn : Option Db)
      → lent_of (serve_file peer filename content conn).1 ≡ lent_of conn
  unfolding serve_file trusts get_peer_settings lent
  lent_of-serve_file peer filename content none = refl
  lent_of-serve_file peer filename content (some db) = refl

  pub lent_of-serve_ratchet_private_message :
      (my_peer_id : String) (secret : Bytes) (peer : String) (envelope : Bytes) (nick : String)
      (timestamp : ℤ) (ttl : Option ℤ) (conn : Option Db)
      → lent_of
          (serve_ratchet_private_message W m my_peer_id secret peer envelope nick timestamp ttl
            conn).1
        ≡ lent_of conn
  unfolding serve_ratchet_private_message
  lent_of-serve_ratchet_private_message my_peer_id secret peer envelope nick timestamp ttl conn =
      lent_of-conclude _ conn
        (receive_ratchet_message W m my_peer_id secret peer envelope nick timestamp ttl)
        (λ db out h.
          lent-receive_ratchet_message W m my_peer_id secret peer envelope nick timestamp ttl db h)

  pub lent_of-serve_x3dh_dm :
      (my_peer_id : String) (secret : Bytes) (peer : String) (envelope : Bytes) (nick : String)
      (timestamp : ℤ) (ttl : Option ℤ) (conn : Option Db)
      → lent_of (serve_x3dh_dm W m my_peer_id secret peer envelope nick timestamp ttl conn).1
        ≡ lent_of conn
  unfolding serve_x3dh_dm
  lent_of-serve_x3dh_dm my_peer_id secret peer envelope nick timestamp ttl conn =
      lent_of-conclude _ conn
        (receive_x3dh_message W m my_peer_id secret peer envelope nick timestamp ttl)
        (λ db out h.
          lent-receive_x3dh_message W m my_peer_id secret peer envelope nick timestamp ttl db h)
