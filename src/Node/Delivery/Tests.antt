-- ===== src/Node/Delivery/Tests.antt =====
-- A message of a room on its way between two small nodes (alterchat-ui/src-tauri/src/lib.rs).
use alter_chat.Base.{true, false, some, none, List, [], ◌∷◌, ◌++◌, ◌≡◌, refl, replicate, arith}
use mathlib.Core.Option
use alter_chat.Base.Equality.{string_eq}
use alter_chat.Desk.Access.{room_action_allowed}
use alter_chat.Db.Rooms.{count_roles}
use alter_chat.Db.Table.{select}
use alter_chat.Vault.{encrypt_payload}
use alter_chat.Crdt.{
  add_message, append_message, save, get_messages, messages_from, read_message, has_expired,
}
use alter_chat.Base.Bytes.{Bytes}
use alter_chat.Int.{pos, i64, ◌*ℤ◌, ◌-ℤ◌}
use alter_chat.Crypto.{toy-IsLawful}
use alter_chat.Crdt.Published.{AutomergeIsLawful}
use alter_chat.Db.Schema.{fresh_db}
use alter_chat.Node.Types.{World, Moment, Node, Effect, emit, put_record, history}
use alter_chat.Node.Commands.{send_message, show_history}
use alter_chat.Node.Events.{on_gossip, on_record}
use alter_chat.Node.Delivery.Toy.{hi, hi-IsLawful, parts, parts-IsLawful}
use alter_chat.Node.Delivery.Mailbox.{MayWrite, on_record-send_private_message}
use alter_chat.Node.Outbox.{send_private_message}
use alter_chat.Db.Messages.{new_friend, get_private_messages, save_private_message}
use alter_chat.Db.Messages
use alter_chat.Db.Messages.{get_friends, load_ratchet_state}
use alter_chat.Db.Table.{find, insert_or_ignore, upsert, delete_where, order_by}
use alter_chat.Db.Settings.{get_peer_settings}
use alter_chat.Envelope.{ltb_bytes, encrypt_for_peer, get_dht_mailbox_key, get_public_key}
use alter_chat.DoubleRatchet.{encrypt, init_alice, init_bob, kdf_ck, kdf_rk}
use alter_chat.Ratchet.{derive_static_shared_secret}
use alter_chat.Traffic.{time_blind_delay}
use alter_chat.Desk.Sessions.{load_or_init_dr_state, save_dr_state, store_state, stored_state}
use alter_chat.Node.Direct.{find_friend, ltb_id}
use alter_chat.Node.Outbox.{
  send_message_to, send_to_friend, deliver, onion_request, possible_relays, post, route_request,
  usize_of, waited,
}
use alter_chat.Node.Types.{decode_x25519_hex}
use alter_chat.Node.Events.{is_repeated}
use alter_chat.Node.Delivery.Toy.{only_hi}
use alter_chat.Base.Equality.{bytes_eq}
use alter_chat.Base.{ℕ_discrete}
use alter_chat.Base.Member.{In}
use alter_chat.Node.Direct.{new_private_message, received}
use alter_chat.Node.Toy.{world, documents, node, db, moment}
use alter_chat.Node.Delivery.{published, stored_document, on_gossip-send_message}

documents-IsLawful : AutomergeIsLawful documents
documents-IsLawful = record { load-save = λ doc. refl }

abbrev draws : Moment
draws = record moment { draw = λ i. replicate 12 i }

abbrev other : Node world
other = record node { peer_id = "dave"; conn = some fresh_db; room = record node.room { doc = 2 } }

abbrev bytes : Bytes
bytes = replicate 12 1 ++ (12 ∷ 1 ∷ [])

abbrev shown : List Effect
shown =
    emit "chat-history" (
      history (
        record {
          peer_id = "hello";
          sender = "hello";
          text = "hello";
          timestamp = pos 1;
          ttl = some (pos 1);
        }
        ∷ []))
    ∷ []

on_gossip-send_message_example :
    (effects : List Effect) × (a' : Node world) × (b' : Node world) × (content : Bytes)
    × (send_message world draws "hi" "Carol" none node ≡ some (effects, a'))
    × (published effects ≡ ("room", content) ∷ [])
    × (on_gossip world moment "room" content other ≡ some (shown, b'))
    × (b'.room ≡ record other.room { doc = 1 })
    × (stored_document b' ≡ stored_document a')
unfolding room_action_allowed count_roles select add_message append_message save encrypt_payload
    string_eq show_history get_messages messages_from read_message Option.bind on_gossip published
    send_message has_expired i64 ◌*ℤ◌ ◌-ℤ◌
on_gossip-send_message_example =
    on_gossip-send_message world draws "hi" "Carol" none node db bytes
      (record node.room { doc = 1 }) refl refl refl refl toy-IsLawful documents-IsLawful moment
      other fresh_db refl (omega arith) refl refl refl refl refl

abbrev post_world : World
post_world = record world { offline = hi; payloads = parts }

-- Bob's node, with the secret of the key that carol has of him.
abbrev bob : Node post_world
bob = record {
  swarm = true;
  conn = some fresh_db;
  db_path = none;
  peer_id = "bob";
  offline_secret = replicate 32 2;
  keypair = none;
  topic = "room";
  room = node.room;
  cover_traffic = true;
  msg_delay = true;
  mdns = true;
  config = node.config;
  rate_buckets = [];
  pow_ban = node.pow_ban;
}

abbrev carol : Node post_world
carol = record bob { conn = some db; peer_id = "carol"; offline_secret = 3 ∷ [] }

abbrev sent : List Effect × Node post_world
sent =
    Option.get_or (send_private_message post_world draws "bob" "hi" "Carol" none false carol)
      ([], carol)

carol_may : MayWrite post_world (pos 0) "bob" (replicate 32 2) db
unfolding get_peer_settings find insert_or_ignore upsert string_eq find_friend get_friends
    Option.bind decode_x25519_hex
carol_may = record {
  friend = new_friend "bob" "Bob" (some "key");
  welcome = refl;
  trusted = refl;
  known = refl;
  free = refl;
  key = refl;
}

on_record-send_private_message_example :
    (key : Bytes) × (value : Bytes) × In (put_record key value) sent.0
    × (on_record post_world moment key value bob ≡ (
      new_private_message (received "carol" "Carol" "hi" (pos 10) none) ∷ [],
      record bob {
        conn = some (
            save_private_message "carol" false "hi"
              (pos 10)
              none
              (get_private_messages (pos 10) "carol" fresh_db).1);
      },
    ))
unfolding send_private_message ltb_id ltb_bytes load_ratchet_state find send_message_to
    get_peer_settings insert_or_ignore upsert string_eq send_to_friend find_friend get_friends
    save_private_message Option.bind decode_x25519_hex deliver encrypt load_or_init_dr_state
    Messages.save_ratchet_state save_dr_state store_state stored_state init_alice init_bob kdf_ck
    kdf_rk encrypt_for_peer get_dht_mailbox_key get_public_key onion_request possible_relays post
    route_request usize_of waited derive_static_shared_secret time_blind_delay only_hi is_repeated
    get_private_messages bytes_eq ℕ_discrete select delete_where order_by
on_record-send_private_message_example =
    on_record-send_private_message post_world toy-IsLawful (λ k n p. (_, refl)) hi-IsLawful
      parts-IsLawful draws moment "hi" "Carol" none false carol sent.1 bob db fresh_db sent.0 refl
      refl refl carol_may refl refl refl
