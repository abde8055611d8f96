-- ===== src/Node/Commands.antt =====
-- The commands of the windows to the event loop (`AppCommand` in
-- alterchat-ui/src-tauri/src/lib.rs), but for the start of a session and private messages. A panic
-- in a room's document is `none`.
pub mod Revocations
unfoldable pub use alter_chat.Node.Commands.Revocations.{
  revocation_topic, revoke_invite_global, publish_room_revocations,
}
use alter_chat.Base.{
  String, Bool, ◌&&◌, Option, none, some, List, [], ◌∷◌, ◌++◌, map, if◌then◌else◌,
}
use mathlib.Core.Option
use alter_chat.Base.Bytes.{Bytes}
use alter_chat.Base.Equality.{string_eq}
use alter_chat.Base.Result.{Result, ok, err}
use alter_chat.Base.Text.{as_bytes}
use alter_chat.Int.{ℤ}
use alter_chat.Traffic.{pad_message, random_send_delay}
use alter_chat.Envelope.{get_dht_revocation_key}
use alter_chat.Crdt.{Room, CrdtMessage, new_room, add_message, get_messages}
use alter_chat.Crdt
use alter_chat.FileTransfer.{file, webrtc_signal}
use alter_chat.Governance.Types.{Permission}
use alter_chat.Db.Schema.{Db}
use alter_chat.Db.Settings.{save_setting}
use alter_chat.Db.Rooms.{
  load_room, save_room, revoke_invite, mark_invite_revoked, list_revoked_invite_ids, save_group,
  remove_group,
}
use alter_chat.Db.Messages.{add_friend, remove_friend, index_room_message}
use alter_chat.Desk.Access.{room_action_allowed, ensure_default_room_governance}
use alter_chat.Desk.Config.{FullConfig, save_full_config_to_db}
use alter_chat.Node.Types.{
  World, Moment, Node, Effect, ChatMessage, emit, send_request, publish, subscribe, unsubscribe,
  put_record, dial, sleep, text, chat, history,
}
use alter_chat.Node.Outbox.{byte_at}

abbrev pub chat_of : CrdtMessage → ChatMessage
chat_of msg = record {
  peer_id = msg.peer_id;
  sender = msg.sender;
  text = msg.text;
  timestamp = msg.timestamp;
  ttl = msg.ttl;
}

module _ (W : World) (m : Moment) where
  abbrev pub allowed_in : String → String → Permission → Db → Bool
  allowed_in room_id peer_id permission db =
      room_action_allowed W.E.S W.E.K W.E.roles W.E.grants m.now room_id peer_id permission db

  -- The messages of the room for the windows, if they can be read.
  unfoldable pub show_history : Room W.A → Option (List Effect)
  show_history room =
      Option.map
        (λ r. elim r [
          | err e ↦ []
          | ok msgs ↦ emit "chat-history" (history (map chat_of msgs)) ∷ []
        ])
        (get_messages W.A W.E.C W.pbkdf2 m.now room)

  -- A message of the user in the room: saved and published as the whole document.
  unfoldable pub send_in_room :
      String → String → Option ℤ → Node W → Db → Option (List Effect × Node W)
  send_in_room words nick ttl node db =
      Option.map
        (λ (added : Result Bytes × Room W.A). elim added.0 [
          | err e ↦ ([], record node { room = added.1 })
          | ok bytes ↦ (
            publish node.topic (pad_message bytes)
                ∷ emit "new-message" (
                    chat (record {
                      peer_id = node.peer_id;
                      sender = nick;
                      text = words;
                      timestamp = m.now;
                      ttl = ttl;
                    }))
                ∷ [],
            record node {
              room = added.1;
              conn =
                  some (
                    index_room_message node.topic nick words m.now (save_room node.topic bytes db));
            },
          )
        ])
        (add_message W.A W.E.C W.pbkdf2 m.now (m.draw 1) node.peer_id nick words ttl node.room)

  -- `SendMessage`; it waits first if delays are on.
  unfoldable pub send_message : String → String → Option ℤ → Node W → Option (List Effect × Node W)
  send_message words nick ttl node =
      let waited =
        if node.msg_delay then sleep (random_send_delay (byte_at (m.draw 0) 0)) ∷ [] else [] in
      elim node.conn [
        | none ↦ some (waited, node)
        | some db ↦
            if node.swarm
            then if allowed_in node.topic node.peer_id Permission.write db
              then Option.map (λ (out : List Effect × Node W). (waited ++ out.0, out.1))
                  (send_in_room words nick ttl node db)
              else some (waited ++ emit "room-action-denied" (text "write") ∷ [], node)
            else some (waited, node)
      ]

  -- The room that the database has under a name, or a new one.
  unfoldable pub open_room : String → Option String → Db → Option (Room W.A)
  open_room name password db =
      let fresh = new_room W.A W.E.C W.pbkdf2 name password in
      elim (load_room name db) [
        | none ↦ fresh
        | some bytes ↦ elim (Crdt.load W.A W.E.C W.pbkdf2 name bytes password) [
          | ok room ↦ some room
          | err e ↦ fresh
        ]
      ]

  unfoldable pub join_channel : String → Option String → Node W → Option (List Effect × Node W)
  join_channel name password node = elim node.conn [
    | none ↦ some ([], node)
    | some db ↦
        if node.swarm
        then Option.bind (open_room name password db) (λ room.
          Option.map
            (λ shown. (
              unsubscribe node.topic ∷ subscribe name ∷ shown,
              record node { topic = name; room = room },
            ))
            (show_history room))
        else some ([], node)
  ]

  unfoldable pub send_file : String → String → Bytes → Node W → List Effect × Node W
  send_file peer filename content node =
      let sent =
        if node.swarm && W.parse_peer peer
        then send_request peer (file filename content) ∷ []
        else [] in
      elim node.conn [
        | none ↦ (sent, node)
        | some db ↦
            if allowed_in node.topic node.peer_id Permission.send_file db
            then (sent, node)
            else (emit "room-action-denied" (text "commands::media::send_file") ∷ [], node)
      ]

  unfoldable pub send_webrtc_signal : String → String → Node W → List Effect × Node W
  send_webrtc_signal peer words node =
      let sent =
        if node.swarm && W.parse_peer peer
        then send_request peer (webrtc_signal words) ∷ []
        else [] in
      elim node.conn [
        | none ↦ (sent, node)
        | some db ↦
            if allowed_in node.topic node.peer_id Permission.start_call db
            then (sent, node)
            else (emit "room-action-denied" (text "start_call") ∷ [], node)
      ]

  unfoldable pub set_bootstrap : String → Node W → List Effect × Node W
  set_bootstrap addr node = elim node.conn [
    | none ↦ ([], node)
    | some db ↦ (
      if node.swarm && W.parse_addr addr then dial addr ∷ [] else [],
      record node { conn = some (save_setting m.now "bootstrap_addr" addr db) },
    )
  ]

  unfoldable pub save_settings : FullConfig → Node W → List Effect × Node W
  save_settings config node = elim node.conn [
    | none ↦ ([], node)
    | some db ↦ (
      [],
      record node {
        conn = some (save_full_config_to_db W.strings m.now config db).1;
        cover_traffic = config.cover_traffic;
        msg_delay = config.msg_delay;
        mdns = config.mdns_enabled;
        config = config;
      },
    )
  ]

  -- The id of the room is a hash of the name and of the time, which is drawn.
  unfoldable pub join_anonymous_channel : String → Node W → Option (List Effect × Node W)
  join_anonymous_channel anon_room_id node =
      Option.map
        (λ room. (
          (if node.swarm then subscribe anon_room_id ∷ [] else [])
              ++ emit "anonymous-channel-joined" (text anon_room_id) ∷ [],
          record node { topic = anon_room_id; room = room },
        ))
        (new_room W.A W.E.C W.pbkdf2 anon_room_id none)

  -- The commands that only write to the database.
  abbrev on_db : (Db → Db) → Node W → List Effect × Node W
  on_db f node = ([], record node { conn = Option.map f node.conn })

  unfoldable pub add_friend_command :
      String → String → Option String → Node W → List Effect × Node W
  add_friend_command peer nickname offline_pubkey node =
      on_db (add_friend peer nickname offline_pubkey) node

  unfoldable pub remove_friend_command : String → Node W → List Effect × Node W
  remove_friend_command peer node = on_db (remove_friend peer) node

  unfoldable pub save_group_command : String → Option String → Node W → List Effect × Node W
  save_group_command channel_name password node =
      on_db
        (λ db.
          let saved = save_group channel_name password db in
          elim node.keypair [
            | none ↦ saved
            | some keypair ↦
                (ensure_default_room_governance W.E.S W.E.K W.E.roles W.E.grants m.now channel_name
                  keypair node.peer_id saved).1
          ])
        node

  unfoldable pub remove_group_command : String → Node W → List Effect × Node W
  remove_group_command channel_name node = on_db (remove_group channel_name) node
