-- ===== src/Node/Delivery/Mailbox.antt =====
-- A private message on its way through the mailbox of its receiver
-- (`SendPrivateMessage` and the records of the DHT in alterchat-ui/src-tauri/src/lib.rs).
use alter_chat.Base.{
  String, Bool, true, false, ◌&&◌, Option, some, List, [], ◌∷◌, ◌++◌, ◌≡◌, refl, ap, ◌∙◌, sym,
  subst, arith,
}
use mathlib.Core.Option
use alter_chat.Base.Bytes.{Bytes}
use alter_chat.Base.Equality.{◌==◌, string_eq, bytes_eq, ==_refl}
use alter_chat.Base.Member.{In, here, there}
use alter_chat.Base.Result.{ok}
use alter_chat.Int.{ℤ, ltb_ℤ}
use alter_chat.Crypto.{Crypto, IsLawful}
use alter_chat.Pow.{to_le64}
use alter_chat.Envelope.{EncryptedPayload, encrypt_for_peer, get_dht_mailbox_key}
use alter_chat.Envelope.RoundTrip.{decrypt_for_me-encrypt_for_peer}
use alter_chat.Db.Rows.{Friend}
use alter_chat.Db.Schema.{Db}
use alter_chat.Db.Settings.{get_peer_settings}
use alter_chat.Db.Messages.{get_friends, get_private_messages, save_private_message}
use alter_chat.Desk.Sessions.{Bincode}
use alter_chat.Node.Types.{World, Moment, Node, Effect, OfflineMsg, put_record, decode_x25519_hex}
use alter_chat.Node.Policy.{is_blocked}
use alter_chat.Node.Direct.{find_friend, new_private_message, received}
use alter_chat.Node.Outbox.{
  waited, trust_of, deliver, post, send_to_friend, send_message_to, send_private_message, usize_of,
}
use alter_chat.Node.Events.{is_repeated, take_offline, on_record}
use alter_chat.Base.Result.{bind-eq-some}
use alter_chat.Node.Roles.{map-eq-some}

-- What is serialized can be read back.
pub record BincodeIsLawful (T : Type 0) (B : Bincode T) : Type 0 where
  pub deserialize-serialize :
      (t : T) {b : Bytes} → B.serialize t ≡ some b → B.deserialize b ≡ some t

-- No message is too long for the cipher.
abbrev pub Encrypts : Crypto → Type 0
Encrypts C = (k n p : Bytes) → (c : Bytes) × (C.aead_encrypt k n p ≡ some c)

-- The message that is left in the mailbox.
abbrev pub left_message : (W : World) → Moment → String → String → String → Option ℤ → OfflineMsg
left_message W m my_peer_id words nick ttl = record {
  sender_peer_id = my_peer_id;
  sender_nick = nick;
  text = words;
  timestamp = m.now;
  ttl = ttl;
  nonce = to_le64 (usize_of m.now) ++ m.draw 7;
}

encrypt_for_peer_total :
    (C : Crypto) (total : Encrypts C) (ephemeral nonce pk plaintext : Bytes)
    → (e : EncryptedPayload) × (encrypt_for_peer C ephemeral nonce pk plaintext ≡ ok e)
unfolding encrypt_for_peer
encrypt_for_peer_total C total ephemeral nonce pk plaintext =
    let (c, sealed) = total (C.diffie_hellman ephemeral pk) nonce plaintext in
    (
      record { ephemeral_pubkey = C.public_key ephemeral; nonce = nonce; ciphertext = c },
      ground (arith, sealed),
    )

In-append : {A : Type 0} {x : A} (xs ys : List A) → In x ys → In x (xs ++ ys)
In-append [] ys h = h
In-append (y ∷ xs) ys h = there (In-append xs ys h)

-- The peer is a friend with the key `pk`, trusted enough, who is not blocked.
pub record MayWrite (W : World) (min_trust_dm : ℤ) (peer : String) (pk : Bytes) (db : Db)
    : Type 0 where
  pub friend : Friend
  pub welcome : is_blocked (get_peer_settings peer db).0 ≡ false
  pub trusted : ltb_ℤ (trust_of (get_peer_settings peer db).0) min_trust_dm ≡ false
  pub known : find_friend (λ f. f.peer_id == peer) (get_friends db) ≡ some friend
  pub free : friend.blocked ≡ false
  pub key : Option.bind friend.offline_pubkey (decode_x25519_hex W) ≡ some pk

module _ (W : World) (total : Encrypts W.E.C) (m : Moment) (my_peer_id peer words nick : String)
    (ttl : Option ℤ) where
  -- What is posted is the record of the encrypted message.
  post-eq-some :
      (pk : Bytes) {posted : List Effect}
      → post W m m.now my_peer_id peer pk words nick ttl ≡ some posted
      → (plaintext : Bytes) × (e : EncryptedPayload) × (value : Bytes) × (W.offline.serialize
            (left_message W m my_peer_id words nick ttl)
          ≡ some plaintext)
        × (encrypt_for_peer W.E.C (m.draw 5) (m.draw 6) pk plaintext ≡ ok e)
        × (W.payloads.serialize e ≡ some value)
        × (posted ≡ put_record (get_dht_mailbox_key W.E.C peer) value ∷ [])
  unfolding post
  post-eq-some pk h =
      let (plaintext, printed, h₁) = bind-eq-some _ _ h in
      let (e, sealed) = encrypt_for_peer_total W.E.C total (m.draw 5) (m.draw 6) pk plaintext in
      let (value, packed, same) =
        map-eq-some (W.payloads.serialize e)
          (λ value. put_record (get_dht_mailbox_key W.E.C peer) value ∷ []) (rw sealed at h₁) in
      (plaintext, e, value, printed, sealed, packed, sym same)

  -- What is posted is the last of what goes out.
  send_to_friend-posts :
      (secret : Bytes) (use_onion : Bool) (friend : Friend) (pk : Bytes) (db : Db)
      {out : List Effect × Db}
      → friend.blocked ≡ false
      → Option.bind friend.offline_pubkey (decode_x25519_hex W) ≡ some pk
      → send_to_friend W m m.now my_peer_id secret peer words nick ttl use_onion (some friend) db
        ≡ some out
      → (sent : List Effect) × (posted : List Effect) × (post W m m.now my_peer_id peer pk words
            nick ttl
          ≡ some posted)
        × (out.0 ≡ sent ++ posted)
  unfolding send_to_friend
  send_to_friend-posts secret use_onion friend pk db free key h =
      let (sent, _, h₁) =
        bind-eq-some
          (deliver W m m.now my_peer_id secret peer pk words nick ttl use_onion (get_friends db) db)
          (λ (sent : List Effect × Db).
            Option.map (λ posted. (sent.0 ++ posted, sent.1))
              (post W m m.now my_peer_id peer pk words nick ttl))
          (rw (free, key) at h) in
      let (posted, made, same) =
        map-eq-some (post W m m.now my_peer_id peer pk words nick ttl)
          (λ posted. (sent.0 ++ posted, sent.1)) h₁ in
      (sent.0, posted, made, ap (λ (o : List Effect × Db). o.0) (sym same))

  send_message_to-posts :
      (secret : Bytes) (min_trust_dm : ℤ) (use_onion : Bool) (pk : Bytes) (db : Db)
      {out : List Effect × Db}
      → MayWrite W min_trust_dm peer pk db
      → send_message_to W m min_trust_dm my_peer_id secret peer words nick ttl use_onion db
        ≡ some out
      → (sent : List Effect) × (posted : List Effect) × (post W m m.now my_peer_id peer pk words
            nick ttl
          ≡ some posted)
        × (out.0 ≡ sent ++ posted)
  unfolding send_message_to get_peer_settings get_friends save_private_message
  send_message_to-posts secret min_trust_dm use_onion pk db may h =
      send_to_friend-posts secret use_onion may.friend pk _ may.free may.key
        (rw (may.welcome, may.trusted, may.known) at h)

  -- What the receiver reads.
  on_record-posted :
      IsLawful W.E.C
      → BincodeIsLawful OfflineMsg W.offline
      → BincodeIsLawful EncryptedPayload W.payloads
      → (m' : Moment) (b : Node W) (db : Db) (plaintext value : Bytes) (e : EncryptedPayload)
      → b.peer_id ≡ peer
      → b.conn ≡ some db
      → W.offline.serialize (left_message W m my_peer_id words nick ttl) ≡ some plaintext
      → encrypt_for_peer W.E.C (m.draw 5) (m.draw 6) (W.E.C.public_key b.offline_secret) plaintext
        ≡ ok e
      → W.payloads.serialize e ≡ some value
      → is_repeated W m'
          (left_message W m my_peer_id words nick ttl)
          (get_private_messages m'.now my_peer_id db).0
        ≡ false
      → on_record W m' (get_dht_mailbox_key W.E.C peer) value b ≡ (
        new_private_message (received my_peer_id nick words m.now ttl) ∷ [],
        record b {
          conn = some (
              save_private_message my_peer_id false words m.now ttl
                (get_private_messages m'.now my_peer_id db).1);
        },
      )
  unfolding on_record take_offline Option.bind
  on_record-posted L offline payloads m' b db plaintext value e own open_db printed sealed packed
        unseen =
      ground (
        arith,
        own,
        open_db,
        ==_refl (get_dht_mailbox_key W.E.C peer),
        payloads.deserialize-serialize e packed,
        decrypt_for_me-encrypt_for_peer W.E.C L (m.draw 5) (m.draw 6) b.offline_secret plaintext
            sealed,
        offline.deserialize-serialize (left_message W m my_peer_id words nick ttl) printed,
        unseen,
      )

-- A private message to a friend with a key, who is trusted enough and not blocked, leaves a record,
-- and the node of that friend that finds it tells its windows the message, as sent by its sender at
-- its time, and adds it to its table, unless it takes it for one that is there: whatever the
-- session of the two is, if the command does not panic (lawful primitives and encodings, a cipher
-- that takes every message).
pub on_record-send_private_message :
    (W : World) (L : IsLawful W.E.C) (total : Encrypts W.E.C)
    (offline : BincodeIsLawful OfflineMsg W.offline)
    (payloads : BincodeIsLawful EncryptedPayload W.payloads) (m m' : Moment) (words nick : String)
    (ttl : Option ℤ) (use_onion : Bool) (a a' b : Node W) (db db' : Db) (effects : List Effect)
    → a.swarm ≡ true
    → W.parse_peer b.peer_id ≡ true
    → a.conn ≡ some db
    → MayWrite W a.config.min_trust_dm b.peer_id (W.E.C.public_key b.offline_secret) db
    → send_private_message W m b.peer_id words nick ttl use_onion a ≡ some (effects, a')
    → b.conn ≡ some db'
    → is_repeated W m'
        (left_message W m a.peer_id words nick ttl)
        (get_private_messages m'.now a.peer_id db').0
      ≡ false
    → (key : Bytes) × (value : Bytes) × In (put_record key value) effects
      × (on_record W m' key value b ≡ (
        new_private_message (received a.peer_id nick words m.now ttl) ∷ [],
        record b {
          conn = some (
              save_private_message a.peer_id false words m.now ttl
                (get_private_messages m'.now a.peer_id db').1);
        },
      ))
unfolding send_private_message
on_record-send_private_message W L total offline payloads m m' words nick ttl use_onion a a' b db
      db' effects started named open_db may h open_db' unseen =
    let on : (a.swarm && W.parse_peer b.peer_id) ≡ true = ground (arith, started, named) in
    let (out, made, same) =
      map-eq-some
        (send_message_to W m a.config.min_trust_dm a.peer_id a.offline_secret b.peer_id words nick
          ttl use_onion db)
        (λ (sent : List Effect × Db).
          (waited m a.msg_delay ++ sent.0, record a { conn = some sent.1 }))
        (rw (open_db, on) at h) in
    let (sent, posted, post_made, out_same) =
      send_message_to-posts W total m a.peer_id b.peer_id words nick ttl a.offline_secret
        a.config.min_trust_dm use_onion (W.E.C.public_key b.offline_secret) db may made in
    let (plaintext, e, value, printed, sealed, packed, posted_same) =
      post-eq-some W total m a.peer_id b.peer_id words nick ttl (W.E.C.public_key b.offline_secret)
        post_made in
    let all : waited m a.msg_delay ++ (sent ++ posted) ≡ effects =
      ap (λ es. waited m a.msg_delay ++ es) (sym out_same)
      ∙ ap (λ (o : List Effect × Node W). o.0) same in
    (
      get_dht_mailbox_key W.E.C b.peer_id,
      value,
      subst (In (put_record (get_dht_mailbox_key W.E.C b.peer_id) value)) all (
          In-append (waited m a.msg_delay) (sent ++ posted)
            (In-append sent posted (subst (In _) (sym posted_same) here))),
      on_record-posted W total m a.peer_id b.peer_id words nick ttl L offline payloads m' b db'
          plaintext value e refl open_db' printed sealed packed unseen,
    )
