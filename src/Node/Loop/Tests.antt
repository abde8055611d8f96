-- ===== src/Node/Loop/Tests.antt =====
-- Commands and events of the event loop in a small world.
use alter_chat.Base.{ℕ_discrete, true, false, none, some, List, [], ◌∷◌, ◌++◌, ◌≡◌, refl, replicate}
use mathlib.Core.Option
use alter_chat.Base.Bytes.{Bytes}
use alter_chat.Base.Equality.{string_eq, strings_eq, bytes_eq}
use alter_chat.Base.Result.{err}
use alter_chat.Int.{pos, i64, ◌*ℤ◌, ◌-ℤ◌}
use alter_chat.Crypto.{toy}
use alter_chat.Signer.Toy as Signers
use alter_chat.Db.Schema.{Db}
use alter_chat.FileTransfer.{webrtc_signal}
use alter_chat.Crdt.Expiry.{TtlsFit, AgesFit, AreShown, get_messages-AreShown}
use alter_chat.Int.{ℤ, IsI64}
use alter_chat.Base.{subst, some_inj, arith}
use alter_chat.Base.Result.{ok_inj}
use alter_chat.Crdt
use alter_chat.Vault.{decrypt_payload}
use alter_chat.Crdt.{
  message_expired, messages_from, read_message, has_expired, get_messages, CrdtMessage, Room,
}
use alter_chat.Desk.Session.{AppState, connect}
use alter_chat.Node.Session
use alter_chat.Desk.Login.{new_state, login_profile, start, login, connect_shut}
use alter_chat.Node.Types.{decode_x25519_hex, Moment, Node, Effect}
use alter_chat.Node.Toy.{world, moment, db, node, announcement, left_message, documents}
use alter_chat.Node.Roles.{HasNoSession, requests_in, send_private_message_stuck}
use alter_chat.Node.Outbox.{
  send_private_message, send_message_to, send_to_friend, deliver, onion_request, possible_relays,
  post, route_request, usize_of, waited,
}
use alter_chat.Node.Mailbox.{read_again, read_again_lem}
use alter_chat.Db.Messages
use alter_chat.Db.Messages.{get_friends, load_ratchet_state, save_private_message}
use alter_chat.Db.Table.{find, insert_or_ignore, upsert}
use alter_chat.Db.Settings.{get_peer_settings}
use alter_chat.Envelope.{ltb_bytes, encrypt_for_peer, get_dht_mailbox_key, get_public_key}
use alter_chat.DoubleRatchet.{encrypt, init_alice, init_bob, kdf_ck, kdf_rk}
use alter_chat.Ratchet.{derive_static_shared_secret}
use alter_chat.Traffic.{time_blind_delay}
use alter_chat.Desk.Sessions.{load_or_init_dr_state, save_dr_state, store_state, stored_state}
use alter_chat.Node.Direct.{find_friend, ltb_id, new_private_message, received}
use alter_chat.Node.Gossip.{on_gossip_revocation, on_gossip_document}
use alter_chat.Node.Events.{on_gossip, starts_with, first_chars}
use alter_chat.Desk.Profiles.{strip_prefix}
use alter_chat.Node.Commands.{revocation_topic, show_history}
use alter_chat.Traffic.{unpad_message}
use alter_chat.Node.Loop.{AppCommand, Input, run_loop}
use alter_chat.Db.Rooms.{is_invite_globally_revoked, load_room}

-- What comes of a message from carol to bob, who has the smaller id.
abbrev sent : List Effect × Node world
sent =
    Option.get_or (send_private_message world moment "bob" "hi" "Carol" none false node) ([], node)

send_private_message_stuck_example :
    (requests_in sent.0 ≡ []) × ((db' : Db) × (sent.1.conn ≡ some db') × HasNoSession "bob" db')
unfolding send_private_message ltb_id ltb_bytes load_ratchet_state find send_message_to
    get_peer_settings insert_or_ignore upsert string_eq send_to_friend find_friend get_friends
    save_private_message Option.bind decode_x25519_hex deliver encrypt load_or_init_dr_state
    Messages.save_ratchet_state save_dr_state store_state stored_state init_alice init_bob kdf_ck
    kdf_rk encrypt_for_peer get_dht_mailbox_key get_public_key onion_request possible_relays post
    route_request usize_of waited derive_static_shared_secret time_blind_delay
send_private_message_stuck_example =
    send_private_message_stuck world moment "bob" "hi" "Carol" none false node sent.1 db sent.0 refl
      refl refl refl

read_again_lem_example :
    read_again world (moment ∷ moment ∷ []) left_message db
    ≡ replicate 2 (new_private_message (received "bob" "Bob" "hello" (pos 3) none))
unfolding starts_with first_chars strip_prefix bytes_eq ℕ_discrete
read_again_lem_example = read_again_lem world left_message refl refl (moment ∷ moment ∷ []) db refl

-- The state after a login.
abbrev logged_in : AppState
logged_in = (login_profile Signers.toy world.E.P toy "password" false new_state).1

connect_shut_example : connect Signers.toy world.E.P logged_in db ≡ (err "Not logged in", db)
connect_shut_example =
    connect_shut Signers.toy world.E.P toy logged_in db (login "password" false start)

on_gossip_revocation_example :
    (effects : List Effect) × (after : Node world) × (db' : Db) × (on_gossip world moment
        revocation_topic
        (9 ∷ [])
        node
      ≡ some (effects, after))
    × (after.conn ≡ some db')
    × (is_invite_globally_revoked announcement.invite_id db' ≡ true)
on_gossip_revocation_example =
    on_gossip_revocation world moment (9 ∷ []) node db refl announcement refl

-- A document from a peer, in a message without padding.
abbrev document : Bytes
document = 1 ∷ (replicate 11 0 ++ 1 ∷ [])

abbrev merged_room : Room documents
merged_room = record node.room { doc = 1 }

on_gossip_document_example :
    (after : Node world) × (db' : Db) × (on_gossip world moment "room" document node
      ≡ some (Option.get_or (show_history world moment merged_room) [], after))
    × (after.conn ≡ some db')
    × (load_room "room" db' ≡ some (Option.get_or (unpad_message document) document))
unfolding show_history get_messages string_eq Crdt.merge decrypt_payload unpad_message messages_from
    read_message Option.bind
on_gossip_document_example =
    on_gossip_document world moment document node db refl "room" merged_room _ refl refl refl

-- What the file of the login has.
abbrev stored : Db
stored = record db { user_version = 2 }

-- A login, a timer, a request and a command.
abbrev inputs : List (Moment × Input)
inputs =
    (moment, Input.command (AppCommand.start_session "password" false stored))
    ∷ (moment, Input.dht_check "key")
    ∷ (moment, Input.request "bob" (webrtc_signal "call"))
    ∷ (moment, Input.command (AppCommand.remove_friend "bob"))
    ∷ []

abbrev ran : List Effect × Node world
ran = Option.get_or (run_loop world inputs node) ([], node)

-- A message of one second, five seconds later.
abbrev shown : List CrdtMessage
shown =
    record {
      peer_id = "hello";
      sender = "hello";
      text = "[MESSAGE EXPIRED]";
      timestamp = pos 1;
      ttl = some (pos 1);
    }
    ∷ []

ttls_fit : TtlsFit documents (pos 5000) 1
unfolding TtlsFit ◌*ℤ◌
ttls_fit obj t h = subst (λ (z : ℤ). IsI64 (z *ℤ pos 1000)) (some_inj (ok_inj h)) (omega arith)

ages_fit : AgesFit documents (pos 5000) 1
unfolding AgesFit ◌-ℤ◌
ages_fit obj timestamp h =
    subst (λ t. IsI64 (pos 5000 -ℤ Option.get_or t (pos 0))) (ok_inj h) (omega arith)

get_messages-AreShown_example : AreShown documents (pos 5000) 1 0 0 1 shown
unfolding get_messages messages_from read_message has_expired message_expired Option.bind i64 ◌*ℤ◌
    ◌-ℤ◌
get_messages-AreShown_example =
    get_messages-AreShown documents toy world.pbkdf2 (pos 5000) (record node.room { doc = 1 }) 0
      shown ttls_fit ages_fit refl refl
