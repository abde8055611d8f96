-- ===== src/Node/Roles.antt =====
-- Which side of a Double Ratchet session the two nodes take
-- (`SendPrivateMessage` and `X3dhDm` in alterchat-ui/src-tauri/src/lib.rs).
use alter_chat.Base.{
  String, ◌<>◌, Bool, true, false, ◌&&◌, Option, none, some, List, [], ◌∷◌, ◌++◌, ◌≡◌, refl, ap,
  some_inj, arith, inl, inr, Bool-cases, Option-cases,
}
use mathlib.Core.Option
use alter_chat.Base.Bytes.{Bytes}
use alter_chat.Base.Equality.{string_eq}
use alter_chat.Int.{ℤ, ltb_ℤ}
use alter_chat.Db.Rows.{Friend}
use alter_chat.Db.Schema.{Db}
use alter_chat.Db.Settings.{get_peer_settings}
use alter_chat.Db.Messages.{load_ratchet_state, save_private_message, get_friends}
use alter_chat.Desk.Sessions.{load_or_init_dr_state, stored_state}
use alter_chat.DoubleRatchet.{encrypt, init_bob}
use alter_chat.FileTransfer.{P2pRequest}
use alter_chat.Node.Types.{World, Moment, Node, Effect, send_request, decode_x25519_hex, emit, text}
use alter_chat.Node.Policy.{is_blocked}
use alter_chat.Node.Direct.{ltb_id}
use alter_chat.Node.Outbox.{
  waited, trust_of, deliver, post, send_to_friend, send_message_to, send_private_message,
}

-- The requests among what goes out.
unfoldable pub requests_in : List Effect → List P2pRequest
requests_in [] = []
requests_in (send_request peer request ∷ effects) = request ∷ requests_in effects
requests_in (e ∷ effects) = requests_in effects

requests_in-append :
    (xs ys : List Effect) → requests_in (xs ++ ys) ≡ requests_in xs ++ requests_in ys
unfolding requests_in
requests_in-append [] ys = refl
requests_in-append (e ∷ xs) ys = ground (arith, requests_in-append xs ys)

pub map-eq-some :
    {A B : Type 0} (o : Option A) (f : A → B) {b : B}
    → Option.map f o ≡ some b
    → (a : A) × (o ≡ some a) × (f a ≡ b)
map-eq-some none f h = ground arith
map-eq-some (some a) f h = (a, refl, some_inj h)

-- No session with the peer is stored.
abbrev pub HasNoSession : String → Db → Type 0
HasNoSession peer db = load_ratchet_state ("dr:" <> peer) db ≡ none

module _ (W : World) (m : Moment) (my_peer_id : String) (secret : Bytes) (peer words nick : String)
    (ttl : Option ℤ) (larger : ltb_id my_peer_id peer ≡ false) where
  deliver_stuck :
      (timestamp : ℤ) (pk : Bytes) (use_onion : Bool) (friends : List Friend) (db : Db)
      → HasNoSession peer db
      → deliver W m timestamp my_peer_id secret peer pk words nick ttl use_onion friends db
        ≡ some (emit "dm-requires-pubkey" (text peer) ∷ [], db)
  unfolding deliver load_or_init_dr_state stored_state encrypt init_bob Option.bind
  deliver_stuck timestamp pk use_onion friends db fresh = ground (arith, larger, fresh)

  requests_in-post :
      (timestamp : ℤ) (pk : Bytes) {posted : List Effect}
      → post W m timestamp my_peer_id peer pk words nick ttl ≡ some posted
      → requests_in posted ≡ []
  unfolding post requests_in Option.bind
  requests_in-post timestamp pk h = ground (arith, h)

  send_to_friend_stuck :
      (timestamp : ℤ) (use_onion : Bool) (friend : Option Friend) (db : Db) {out : List Effect × Db}
      → HasNoSession peer db
      → send_to_friend W m timestamp my_peer_id secret peer words nick ttl use_onion friend db
        ≡ some out
      → (requests_in out.0 ≡ []) × (out.1 ≡ db)
  unfolding send_to_friend requests_in post Option.bind
  send_to_friend_stuck timestamp use_onion none db fresh h = (ground (arith, h), ground (arith, h))
  send_to_friend_stuck timestamp use_onion (some friend) db fresh h =
      elim (Bool-cases friend.blocked) [
        | inl e ↦ (ground (arith, e, h), ground (arith, e, h))
        | inr e ↦ elim (Option-cases (Option.bind friend.offline_pubkey (decode_x25519_hex W))) [
          | inl f ↦ (ground (arith, e, f, h), ground (arith, e, f, h))
          | inr (pk, f) ↦
              let stuck = deliver_stuck timestamp pk use_onion (get_friends db) db fresh in
              let (posted, sent, same) =
                map-eq-some (post W m timestamp my_peer_id peer pk words nick ttl) _
                  (rw (e, f, stuck, Option.bind) at h) in
              (ground (arith, same, requests_in-post timestamp pk sent), ground (arith, same))
        ]
      ]

  send_message_to_stuck :
      (min_trust_dm : ℤ) (use_onion : Bool) (db : Db) {out : List Effect × Db}
      → HasNoSession peer db
      → send_message_to W m min_trust_dm my_peer_id secret peer words nick ttl use_onion db
        ≡ some out
      → (requests_in out.0 ≡ []) × (out.1.ratchet_states ≡ db.ratchet_states)
  unfolding send_message_to get_peer_settings requests_in save_private_message load_ratchet_state
  send_message_to_stuck min_trust_dm use_onion db fresh h =
      elim (Bool-cases (is_blocked (get_peer_settings peer db).0)) [
        | inl e ↦ (ground (arith, e, h), ground (arith, e, h))
        | inr e ↦ elim (Bool-cases (ltb_ℤ (trust_of (get_peer_settings peer db).0) min_trust_dm)) [
          | inl f ↦ (ground (arith, e, f, h), ground (arith, e, f, h))
          | inr f ↦
              let (silent, same) =
                send_to_friend_stuck m.now use_onion _
                  (save_private_message peer true words m.now ttl (get_peer_settings peer db).1)
                  fresh (rw (e, f) at h) in
              (silent, ap (λ (d : Db). d.ratchet_states) same)
        ]
      ]

requests_in-waited : (m : Moment) (delay : Bool) → requests_in (waited m delay) ≡ []
unfolding requests_in waited
requests_in-waited m true = refl
requests_in-waited m false = refl

-- A node with a database, whose id is not the smaller one, never sends a private message to a peer
-- with whom it has no session: if the command does not panic, then, whatever the message, the
-- friends and the settings are, no request goes out, and there is no session afterwards either.
pub send_private_message_stuck :
    (W : World) (m : Moment) (peer words nick : String) (ttl : Option ℤ) (use_onion : Bool)
    (node after : Node W) (db : Db) (effects : List Effect)
    → node.conn ≡ some db
    → ltb_id node.peer_id peer ≡ false
    → HasNoSession peer db
    → send_private_message W m peer words nick ttl use_onion node ≡ some (effects, after)
    → (requests_in effects ≡ []) × ((db' : Db) × (after.conn ≡ some db') × HasNoSession peer db')
unfolding send_private_message requests_in load_ratchet_state
send_private_message_stuck W m peer words nick ttl use_onion node after db effects open_db larger
      fresh h =
    elim (Bool-cases (node.swarm && W.parse_peer peer)) [
      | inr off ↦ (
        ground (arith, open_db, off, h, requests_in-waited m node.msg_delay),
        (db, ground (arith, open_db, off, h), fresh),
      )
      | inl on ↦
          let (sent, made, same) =
            map-eq-some
              (send_message_to W m node.config.min_trust_dm node.peer_id node.offline_secret peer
                words nick ttl use_onion db)
              _ (rw (open_db, on) at h) in
          let (silent, kept) =
            send_message_to_stuck W m node.peer_id node.offline_secret peer words nick ttl larger
              node.config.min_trust_dm use_onion db fresh made in
          (
            ground (
              arith,
              same,
              silent,
              requests_in-append (waited m node.msg_delay) sent.0,
              requests_in-waited m node.msg_delay,
            ),
            (sent.1, ground (arith, same), rw kept fresh),
          )
    ]
