-- ===== src/Node/Outbox.antt =====
-- Sending a private message (`SendPrivateMessage` in alterchat-ui/src-tauri/src/lib.rs). A panic, of
-- an `unwrap` or in `wrap_onion`, is `none`. Values are drawn in this order: the delay's bytes, the
-- secret of a new session, the message's nonce, the secret and the nonce of the sealed request, those
-- of the mailbox's message, the eight bytes hashed for its own nonce, and a pair for each hop.
pub mod Route
unfoldable pub use alter_chat.Node.Outbox.Route.{
  usize_of, possible_relays, onion_request, route_request,
}
use alter_chat.Base.{
  ℕ, ◌+◌, ◌-◌, ◌*◌, ◌%◌, ◌^◌, String, Bool, true, false, not, ◌&&◌, Option, none, some, List, [],
  ◌∷◌, ◌++◌, length, get_elem?, if◌then◌else◌,
}
use mathlib.Core.Option
use alter_chat.Base.Bytes.{Bytes}
use alter_chat.Base.Equality.{◌==◌, string_eq}
use alter_chat.Base.Result.{Result, ok, err}
use alter_chat.Base.Text.{as_bytes}
use alter_chat.Int.{ℤ, pos, negsuc, ltb_ℤ}
use alter_chat.Pow.{to_le64}
use alter_chat.Traffic.{time_blind_delay}
use alter_chat.DoubleRatchet.{encrypt}
use alter_chat.Envelope.{encrypt_for_peer, sealed_send, get_dht_mailbox_key}
use alter_chat.Onion.{wrap_onion}
use alter_chat.FileTransfer.{P2pRequest, x3dh_dm, onion_forward}
use alter_chat.Db.Rows.{Friend, PeerSettings}
use alter_chat.Db.Schema.{Db}
use alter_chat.Db.Settings.{get_peer_settings}
use alter_chat.Db.Messages.{get_friends, save_private_message}
use alter_chat.Desk.Sessions.{load_or_init_dr_state, save_dr_state}
use alter_chat.Node.Types.{
  World, Moment, Node, Effect, emit, send_request, put_record, sleep, text, decode_x25519_hex,
}
use alter_chat.Node.Policy.{is_blocked}
use alter_chat.Node.Direct.{find_friend, ltb_id}

abbrev pub byte_at : Bytes → ℕ → ℕ
byte_at bytes i = Option.get_or (get_elem? bytes i) 0

abbrev pub trust_of : Result PeerSettings → ℤ
trust_of (ok s) = s.trust_level
trust_of (err e) = pos 0

-- The wait before a message, if delays are on.
unfoldable pub waited : Moment → Bool → List Effect
waited m delay =
    if delay
    then sleep (time_blind_delay (byte_at (m.draw 0) 0) (byte_at (m.draw 0) 1)) ∷ []
    else []

module _ (W : World) (m : Moment) where
  -- The message under the Double Ratchet. The session starts as the initiator's if the sender's id is
  -- the smaller one.
  unfoldable pub deliver :
      ℤ
      → String
      → Bytes
      → String
      → Bytes
      → String
      → String
      → Option ℤ
      → Bool
      → List Friend
      → Db
      → Option (List Effect × Db)
  deliver timestamp my_peer_id secret peer pk words nick ttl use_onion friends db =
      let (envelope, st) = encrypt W.E.C (m.draw 2) (as_bytes words) (
        load_or_init_dr_state W.E.C W.sessions (m.draw 1) peer secret pk (ltb_id my_peer_id peer)
          db) in
      elim envelope [
        | err e ↦ some (emit "dm-requires-pubkey" (text peer) ∷ [], db)
        | ok e ↦ elim (W.dr_envelopes.serialize e) [
          | none ↦ some ([], db)
          | some bytes ↦
              Option.map
                (λ (target : String × P2pRequest). (
                  send_request target.0 target.1 ∷ [],
                  save_dr_state W.E.C W.sessions m.now peer st db,
                ))
                (route_request W m use_onion timestamp my_peer_id secret peer pk
                  (x3dh_dm none bytes st.dh_send_pub nick timestamp ttl) friends)
        ]
      ]

  -- The copy for the receiver's mailbox.
  unfoldable pub post :
      ℤ → String → String → Bytes → String → String → Option ℤ → Option (List Effect)
  post timestamp my_peer_id peer pk words nick ttl =
      Option.bind
        (W.offline.serialize (record {
          sender_peer_id = my_peer_id;
          sender_nick = nick;
          text = words;
          timestamp = timestamp;
          ttl = ttl;
          nonce = to_le64 (usize_of timestamp) ++ m.draw 7;
        }))
        λ plaintext. elim (encrypt_for_peer W.E.C (m.draw 5) (m.draw 6) pk plaintext) [
          | err e ↦ some []
          | ok encrypted ↦
              Option.map (λ value. put_record (get_dht_mailbox_key W.E.C peer) value ∷ [])
                (W.payloads.serialize encrypted)
        ]

  -- What is sent to a friend, by what the list has of him.
  unfoldable pub send_to_friend :
      ℤ
      → String
      → Bytes
      → String
      → String
      → String
      → Option ℤ
      → Bool
      → Option Friend
      → Db
      → Option (List Effect × Db)
  send_to_friend timestamp my_peer_id secret peer words nick ttl use_onion none db =
      some (emit "dm-requires-pubkey" (text peer) ∷ [], db)
  send_to_friend timestamp my_peer_id secret peer words nick ttl use_onion (some friend) db =
      if friend.blocked
      then some (emit "private-message-blocked" (text peer) ∷ [], db)
      else elim (Option.bind friend.offline_pubkey (decode_x25519_hex W)) [
        | none ↦ some (emit "dm-requires-pubkey" (text peer) ∷ [], db)
        | some pk ↦
            Option.bind
              (deliver timestamp my_peer_id secret peer pk words nick ttl use_onion (get_friends db)
                db)
              λ (sent : List Effect × Db).
                Option.map (λ posted. (sent.0 ++ posted, sent.1))
                  (post timestamp my_peer_id peer pk words nick ttl)
      ]

  unfoldable pub send_message_to :
      ℤ
      → String
      → Bytes
      → String
      → String
      → String
      → Option ℤ
      → Bool
      → Db
      → Option (List Effect × Db)
  send_message_to min_trust_dm my_peer_id secret peer words nick ttl use_onion db =
      let (settings, after) = get_peer_settings peer db in
      if is_blocked settings
      then some (emit "private-message-blocked" (text peer) ∷ [], after)
      else if ltb_ℤ (trust_of settings) min_trust_dm
      then some (emit "private-message-blocked" (text peer) ∷ [], after)
      else (let saved = save_private_message peer true words m.now ttl after in
          send_to_friend m.now my_peer_id secret peer words nick ttl use_onion
            (find_friend (λ f. f.peer_id == peer) (get_friends saved)) saved)

  -- The whole command.
  unfoldable pub send_private_message :
      String → String → String → Option ℤ → Bool → Node W → Option (List Effect × Node W)
  send_private_message peer words nick ttl use_onion node = elim node.conn [
    | none ↦ some (waited m node.msg_delay, node)
    | some db ↦
        if node.swarm && W.parse_peer peer
        then Option.map
            (λ (sent : List Effect × Db).
              (waited m node.msg_delay ++ sent.0, record node { conn = some sent.1 }))
            (send_message_to node.config.min_trust_dm node.peer_id node.offline_secret peer words
              nick ttl use_onion db)
        else some (waited m node.msg_delay, node)
  ]
