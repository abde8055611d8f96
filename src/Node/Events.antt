-- ===== src/Node/Events.antt =====
-- The timers and the network's events in the event loop (alterchat-ui/src-tauri/src/lib.rs), but for
-- requests. A panic in a room's document is `none`.
use alter_chat.Base.{
  ℕ, zero, suc, String, Bool, true, false, ◌&&◌, Option, none, some, List, [], ◌∷◌, ◌++◌, map,
  replicate, if◌then◌else◌,
}
use mathlib.Core.Option
use alter_chat.Base.Bytes.{Bytes}
use alter_chat.Base.Equality.{◌==◌, string_eq, bytes_eq}
use alter_chat.Base.Member.{any}
use alter_chat.Base.Result.{ok, err}
use alter_chat.Traffic.{unpad_message, generate_chaff_payload}
use alter_chat.Envelope.{decrypt_for_me, get_dht_mailbox_key, get_dht_pubkey_key}
use alter_chat.Crdt
use alter_chat.FileTransfer.{capability_announcement}
use alter_chat.Db.Rows.{PrivateMessage}
use alter_chat.Db.Schema.{Db}
use alter_chat.Db.Rooms.{save_room, revoke_invite, mark_invite_revoked}
use alter_chat.Db.Messages.{get_private_messages, save_private_message, same_time}
use alter_chat.Db.Nodes.{save_known_peer}
use alter_chat.Desk.Profiles.{strip_prefix}
use alter_chat.Node.Types.{
  World, Moment, Node, Effect, OfflineMsg, emit, send_request, publish, put_record, get_record,
  add_address, bootstrap, add_explicit_peer, remove_explicit_peer, text,
}
use alter_chat.Node.Direct.{new_private_message, received}
use alter_chat.Node.Commands.{revocation_topic, show_history}

-- `for (peer_id, _) in list`
abbrev announce : (String → Effect) → String → List String → List Effect
announce f name [] = []
announce f name (peer ∷ peers) = f peer ∷ emit name (text peer) ∷ announce f name peers

-- `text.starts_with(prefix)`
unfoldable pub starts_with : String → String → Bool
starts_with prefix words = elim (strip_prefix prefix words) [ none ↦ false | some rest ↦ true ]

-- The first characters of a text.
unfoldable pub first_chars : ℕ → String → String
first_chars zero words = ""
first_chars (suc n) String.[] = ""
first_chars (suc n) (String.◌∷◌ c words) = String.◌∷◌ c (first_chars n words)

module _ (W : World) (m : Moment) where
  -- Every 30 seconds: the own mailbox is read, and the own key published.
  unfoldable pub on_dht_check : String → Node W → List Effect × Node W
  on_dht_check my_offline_pubkey node = (
    if node.swarm
        then get_record (get_dht_mailbox_key W.E.C node.peer_id)
          ∷ put_record (get_dht_pubkey_key W.E.C node.peer_id)
              (Option.get_or (W.hex_decode my_offline_pubkey) [])
          ∷ []
        else [],
    node,
  )

  -- Every 60 seconds: chaff, of the number and the bytes drawn.
  unfoldable pub on_chaff : ℕ → Node W → List Effect × Node W
  on_chaff r node = (
    if node.cover_traffic && node.swarm
        then publish node.topic (generate_chaff_payload r (m.draw 0)) ∷ []
        else [],
    node,
  )

  -- Every 45 seconds: what the node offers, to each peer that is connected.
  unfoldable pub on_capability : List String → ℕ → Node W → List Effect × Node W
  on_capability peers score node = (
    if node.config.publish_capabilities && node.swarm
        then map
            (λ peer. send_request peer (
              capability_announcement node.peer_id node.config.storage_node_enabled
                node.config.relay_enabled node.config.dht_server_mode node.config.accept_relay score
                ("/alterchat/p2p/1.0.0" ∷ [])))
            peers
        else [],
    node,
  )

  unfoldable pub on_discovered : List String → Node W → List Effect × Node W
  on_discovered peers node = (
    if node.mdns && node.swarm then announce add_explicit_peer "peer-discovered" peers else [],
    node,
  )

  unfoldable pub on_expired : List String → Node W → List Effect × Node W
  on_expired peers node = (
    if node.mdns && node.swarm then announce remove_explicit_peer "peer-expired" peers else [],
    node,
  )

  unfoldable pub save_addresses : String → List String → Db → Db
  save_addresses peer [] db = db
  save_addresses peer (addr ∷ addrs) db =
      save_addresses peer addrs (save_known_peer peer addr m.now db)

  unfoldable pub on_identified : String → List String → Node W → List Effect × Node W
  on_identified peer addrs node =
      if node.swarm
      then (
        map (add_address peer) addrs ++ bootstrap ∷ [],
        record node { conn = Option.map (save_addresses peer addrs) node.conn },
      )
      else ([], node)

  -- An announcement of a revoked invitation.
  unfoldable pub on_revocation : Bytes → Db → Node W → List Effect × Node W
  on_revocation content db node = elim (W.revocations.deserialize content) [
    | none ↦ ([], node)
    | some ann ↦ (
      emit "invite-revoked-global" (text ann.invite_id) ∷ [],
      record node {
        conn = some (
            revoke_invite ann.invite_id
              (mark_invite_revoked m.now ann.invite_id ann.revoked_by db));
      },
    )
  ]

  -- A room's document: what is saved is what came in.
  unfoldable pub on_document : Bytes → Db → Node W → Option (List Effect × Node W)
  on_document content db node =
      let payload = Option.get_or (unpad_message content) content in
      let (merged, room) = Crdt.merge W.A W.E.C W.pbkdf2 payload node.room in
      elim merged [
        | err e ↦ some ([], record node { room = room })
        | ok _ ↦
            Option.map
              (λ shown.
                (shown, record node { room = room; conn = some (save_room node.topic payload db) }))
              (show_history W m room)
      ]

  unfoldable pub on_gossip : String → Bytes → Node W → Option (List Effect × Node W)
  on_gossip topic content node = elim node.conn [
    | none ↦ some ([], node)
    | some db ↦
        if topic == revocation_topic
        then some (on_revocation content db node)
        else on_document content db node
  ]

  -- Whether a message of the mailbox is taken for one that is there.
  unfoldable pub is_repeated : OfflineMsg → List PrivateMessage → Bool
  is_repeated msg existing =
      if msg.nonce == replicate 16 0
      then any (λ r. same_time r.timestamp msg.timestamp && r.text == msg.text) existing
      else any
          (λ r.
            same_time r.timestamp msg.timestamp
            && starts_with (first_chars 8 (W.hex_encode msg.nonce)) r.text)
          existing

  unfoldable pub take_offline : OfflineMsg → Db → List Effect × Db
  take_offline msg db =
      let (existing, after) = get_private_messages m.now msg.sender_peer_id db in
      if is_repeated msg existing then ([], after) else (
        new_private_message
              (received msg.sender_peer_id msg.sender_nick msg.text msg.timestamp msg.ttl)
            ∷ [],
        save_private_message msg.sender_peer_id false msg.text msg.timestamp msg.ttl after,
      )

  -- A record that was found.
  unfoldable pub on_record : Bytes → Bytes → Node W → List Effect × Node W
  on_record key value node =
      let content = Option.bind (W.payloads.deserialize value) λ encrypted.
        Option.bind
          (elim (decrypt_for_me W.E.C node.offline_secret encrypted) as (λ _. Option Bytes) [
            | ok plaintext ↦ some plaintext
            | err e ↦ none
          ])
          W.offline.deserialize in
      if key == get_dht_mailbox_key W.E.C node.peer_id
      then elim content [
        | none ↦ ([], node)
        | some msg ↦ elim node.conn [
          | none ↦ ([], node)
          | some db ↦
              let (effects, after) = take_offline msg db in
              (effects, record node { conn = some after })
        ]
      ]
      else ([], node)
