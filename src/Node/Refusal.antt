-- ===== src/Node/Refusal.antt =====
-- What the handler refuses, and that a refusal changes nothing
-- (alterchat-ui/src-tauri/src/lib.rs).
use alter_chat.Base.{
  String, true, false, Option, some, List, [], ◌∷◌, ◌++◌, ◌≡◌, refl, arith, ◌⊎◌, inl, inr,
  Bool-cases, Option-cases,
}
use mathlib.Core.Option
use alter_chat.Base.Bytes.{Bytes}
use alter_chat.Base.Equality.{◌==◌, string_eq}
use alter_chat.Base.Member.{any}
use alter_chat.Int.{ℤ}
use alter_chat.FileTransfer.{P2pRequest, rejection_for_request, x3dh_dm, x3dh_dm_ack}
use alter_chat.Db.Rows.{PeerSettings}
use alter_chat.Db.Schema.{Db}
use alter_chat.Db.Settings.{get_peer_settings, peer_key, default_peer_settings}
use alter_chat.Db.Table.{insert_or_ignore}
use alter_chat.Desk.Config.{FullConfig}
use alter_chat.Desk.RateLimit.{Buckets}
use alter_chat.Db.Messages.{get_friends, save_private_message}
use alter_chat.Desk.Access.{peer_can_contact}
use alter_chat.DoubleRatchet.{DrState}
use alter_chat.Desk.Sessions.{save_dr_state, store_state}
use alter_chat.Db.Messages
use alter_chat.Node.Types.{World, Moment, Node, respond}
use alter_chat.Node.Policy.{admit, refused, is_blocked}
use alter_chat.Node.Direct.{
  conclude, new_private_message, received, serve_x3dh_dm, receive_x3dh_message,
}
use alter_chat.Node.Requests.{serve, on_verdict, handle_request}
use alter_chat.Node.Reading.{IsRead, IsRead-taken, receive_x3dh_message-IsRead}

-- A peer whom the user has not made a friend, under a policy that wants one, or one that is blocked.
unfoldable pub IsUnwelcome : String → String → Db → Type 0
IsUnwelcome policy peer db =
    (is_blocked (get_peer_settings peer db).0 ≡ true)
    ⊎ ((any (λ f. f.peer_id == peer) (get_friends db) ≡ false) × (policy == "allow" ≡ false))

-- The peer's row, made if there is none.
abbrev seen : String → List PeerSettings → List PeerSettings
seen peer rows = insert_or_ignore peer_key (default_peer_settings peer) rows

admit_blocked :
    (now : ℤ) (peer : String) (config : FullConfig) (buckets : Buckets) (db : Db)
    → is_blocked (get_peer_settings peer db).0 ≡ true
    → admit now peer config buckets db
      ≡ (refused, buckets, record db { peer_settings = seen peer db.peer_settings })
unfolding admit get_peer_settings
admit_blocked now peer config buckets db blocked = rw blocked refl

admit_refusal :
    (now : ℤ) (peer : String) (config : FullConfig) (buckets : Buckets) (db : Db)
    → IsUnwelcome config.unknown_peer_policy peer db
    → (rows : List PeerSettings) × (admit now peer config buckets db
        ≡ (refused, buckets, record db { peer_settings = rows }))
unfolding IsUnwelcome admit get_peer_settings peer_can_contact get_friends
admit_refusal now peer config buckets db (inl blocked) =
    (_, admit_blocked now peer config buckets db blocked)
admit_refusal now peer config buckets db (inr (stranger, closed)) =
    elim (Bool-cases (is_blocked (get_peer_settings peer db).0)) [
      | inl blocked ↦ (_, admit_blocked now peer config buckets db blocked)
      | inr free ↦ (seen peer (seen peer db.peer_settings), ground (arith, stranger, closed, free))
    ]

-- If the network and the database are there, a request of a peer that is blocked, or that is no
-- friend under a policy other than "allow", gets the refusal of its kind and nothing else goes out;
-- the node stays as it was, but for the rows of peers' settings.
pub handle_request_refusal :
    (W : World) (m : Moment) (peer : String) (request : P2pRequest) (node : Node W) (db : Db)
    → node.swarm ≡ true
    → node.conn ≡ some db
    → IsUnwelcome node.config.unknown_peer_policy peer db
    → ((handle_request W m peer request node).0 ≡ respond (rejection_for_request request) ∷ [])
      × ((rows : List PeerSettings) × ((handle_request W m peer request node).1
            ≡ record node { conn = some (record db { peer_settings = rows }) }))
unfolding handle_request on_verdict
handle_request_refusal W m peer request node db started open_db unwelcome =
    let (rows, same) = admit_refusal m.now peer node.config node.rate_buckets db unwelcome in
    (ground (arith, started, open_db, same), (rows, ground (arith, started, open_db, same)))

saved_message :
    (W : World) (now : ℤ) (peer words : String) (st : DrState) (timestamp : ℤ) (ttl : Option ℤ)
    (db : Db)
    → (save_dr_state W.E.C W.sessions now peer st
        (save_private_message peer false words timestamp ttl db)).private_messages
      ≡ db.private_messages
        ++ record {
          peer_id = peer;
          sender_is_me = false;
          text = words;
          timestamp = timestamp;
          ttl = ttl;
        }
          ∷ []
unfolding save_dr_state store_state save_private_message Messages.save_ratchet_state
saved_message W now peer words st timestamp ttl db = ground arith

-- A node with a database answers a message under the Double Ratchet in one of two ways. It cannot
-- be read: the answer says so, nothing else goes out, and the node stays as it was, the stored
-- state of the session included. Or it can, as the text that the session with its sender, stored or
-- new, decrypts from the envelope: the windows get that text, it is the one that is added to the
-- table, and the answer is a success. It can be read exactly if the first row of the sender among
-- the friends that is not blocked has a key of 32 bytes, the envelope is one, the session decrypts
-- it, and what comes out is UTF-8.
pub serve_x3dh_dm_cases :
    (W : World) (m : Moment) (peer : String) (init_msg : Option Bytes) (envelope dh_pub : Bytes)
    (nick : String) (timestamp : ℤ) (ttl : Option ℤ) (node : Node W) (db : Db)
    → node.conn ≡ some db
    → let (effects, after) =
        serve W m peer (x3dh_dm init_msg envelope dh_pub nick timestamp ttl) node in
      (((words : String) (st : DrState) → ¬ IsRead W m node db peer envelope words st)
        × (effects ≡ respond (x3dh_dm_ack false) ∷ [])
        × (after ≡ node))
      ⊎ ((words : String) × (st : DrState) × (db' : Db) × IsRead W m node db peer envelope words st
          × (effects
              ≡ new_private_message (received peer nick words timestamp ttl)
                ∷ respond (x3dh_dm_ack true)
                ∷ [])
          × (after ≡ record node { conn = some db' })
          × (db'.private_messages
              ≡ db.private_messages
                ++ record {
                  peer_id = peer;
                  sender_is_me = false;
                  text = words;
                  timestamp = timestamp;
                  ttl = ttl;
                }
                  ∷ []))
unfolding serve serve_x3dh_dm conclude Option.bind
serve_x3dh_dm_cases W m peer init_msg envelope dh_pub nick timestamp ttl node db open_db =
    elim (Option-cases (
      receive_x3dh_message W m node.peer_id node.offline_secret peer envelope nick timestamp ttl
        db)) [
          | inl shut ↦ inl (
            (λ words st readable.
                IsRead-taken W m node db peer envelope nick timestamp ttl words st readable shut),
            ground (arith, open_db, shut),
            ground (arith, open_db, shut),
          )
          | inr ((msg, db'), taken) ↦
              let (words, st, readable, same_msg, same_db) =
                receive_x3dh_message-IsRead W m node db peer envelope nick timestamp ttl taken in
              inr (
                words,
                st,
                db',
                readable,
                ground (arith, open_db, taken, same_msg),
                ground (arith, open_db, taken),
                rw same_db (saved_message W m.now peer words st timestamp ttl db),
              )
        ]
