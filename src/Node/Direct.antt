-- ===== src/Node/Direct.antt =====
-- The requests that carry a private message (`PrivateMessage`, `RatchetPrivateMessage` and `X3dhDm`
-- in the handler of alterchat-ui/src-tauri/src/lib.rs). Random values are drawn from the moment: the
-- secret of a new session, then the secret of a ratchet step.
use alter_chat.Base.{
  ℕ, String, Bool, true, false, not, ◌&&◌, ◌||◌, Option, none, some, List, [], ◌∷◌, ◌++◌,
  if◌then◌else◌,
}
use mathlib.Core.Option
use alter_chat.Base.Bytes.{Bytes}
use alter_chat.Base.Equality.{◌==◌, string_eq}
use alter_chat.Base.Member.{any}
use alter_chat.Base.Result.{ok, err}
use alter_chat.Base.Text.{as_bytes}
use alter_chat.Int.{ℤ}
use alter_chat.Pow.{PowToken, verify}
use alter_chat.Traffic.{PowBanList, record_failure}
use alter_chat.Ratchet.{ratchet_decrypt}
use alter_chat.DoubleRatchet.{decrypt}
use alter_chat.Envelope.{ltb_bytes}
use alter_chat.FileTransfer.{
  P2pResponse, private_message_ack, ratchet_private_message_ack, x3dh_dm_ack,
}
use alter_chat.Db.Rows.{Friend}
use alter_chat.Db.Schema.{Db}
use alter_chat.Db.Messages.{get_friends, save_private_message}
use alter_chat.Desk.Sessions.{
  load_or_init_ratchet_state, save_ratchet_state, load_or_init_dr_state, save_dr_state,
}
use alter_chat.Node.Types.{
  World, Moment, PmPayload, Effect, emit, respond, remove_peer, text, private, decode_x25519_hex,
}
use alter_chat.Node.Policy.{trusts}

-- `friends.iter().find(..)`
unfoldable pub find_friend : (Friend → Bool) → List Friend → Option Friend
find_friend p [] = none
find_friend p (f ∷ friends) = let rest = find_friend p friends in if p f then some f else rest

-- `<` of two ids.
unfoldable pub ltb_id : String → String → Bool
ltb_id a b = ltb_bytes (as_bytes a) (as_bytes b)

-- The message, as the windows get it.
abbrev pub received : String → String → String → ℤ → Option ℤ → PmPayload
received peer nick words timestamp ttl = record {
  peer_id = peer;
  sender_nick = nick;
  text = words;
  timestamp = timestamp;
  ttl = ttl;
}

abbrev pub new_private_message : PmPayload → Effect
new_private_message msg = emit "new-private-message" (private msg)

abbrev pub pow_threshold : ℕ
pow_threshold = 3

-- What goes out on a failed proof of work.
unfoldable pub pow_refusal : String → Bool → List Effect
pow_refusal peer should_ban =
    emit "peer-blocked-pow" (text peer)
      ∷ (if should_ban then remove_peer peer ∷ emit "peer-network-banned" (text peer) ∷ [] else [])
    ++ respond (private_message_ack false) ∷ []

-- The answer to a message under a ratchet, which says whether it could be read.
unfoldable pub conclude :
    (Bool → P2pResponse) → Option Db → Option (PmPayload × Db) → List Effect × Option Db
conclude ack conn none = (respond (ack false) ∷ [], conn)
conclude ack conn (some (msg, db)) = (new_private_message msg ∷ respond (ack true) ∷ [], some db)

module _ (W : World) where
  -- The key of a friend who is not blocked, if it can be read.
  unfoldable pub friend_key : String → Db → Option Bytes
  friend_key peer db =
      Option.bind (find_friend (λ f. f.peer_id == peer && not f.blocked) (get_friends db))
        λ friend. Option.bind friend.offline_pubkey (decode_x25519_hex W)

  -- A friend, or a peer that has done the work for this node.
  unfoldable pub is_accepted : Moment → String → String → Option PowToken → Db → Bool
  is_accepted m my_peer_id peer token db =
      any (λ f. f.peer_id == peer) (get_friends db)
      || Option.get_or (Option.map (λ t. verify W.E.C t my_peer_id 16 300 m.seconds) token) false

  unfoldable pub serve_private_message :
      Moment
      → String
      → String
      → String
      → String
      → ℤ
      → Option ℤ
      → Option PowToken
      → PowBanList
      → Option Db
      → List Effect × PowBanList × Option Db
  serve_private_message m my_peer_id peer words nick timestamp ttl token ban none =
      (respond (private_message_ack true) ∷ [], ban, none)
  serve_private_message m my_peer_id peer words nick timestamp ttl token ban (some db) =
      let (ban', should_ban) = record_failure peer pow_threshold ban in
      let (allowed, after) = trusts "min_trust_dm" peer db in
      if is_accepted m my_peer_id peer token db
      then if allowed
        then (
          new_private_message (received peer nick words timestamp ttl)
              ∷ respond (private_message_ack true)
              ∷ [],
          ban,
          some (save_private_message peer false words timestamp ttl after),
        )
        else (
          emit "private-message-blocked" (text peer) ∷ respond (private_message_ack false) ∷ [],
          ban,
          some after,
        )
      else (pow_refusal peer should_ban, ban', some db)

  -- A message under the symmetric ratchet: `none` is that it cannot be read, and then nothing changes.
  unfoldable pub receive_ratchet_message :
      Moment
      → String
      → Bytes
      → String
      → Bytes
      → String
      → ℤ
      → Option ℤ
      → Db
      → Option (PmPayload × Db)
  receive_ratchet_message m my_peer_id secret peer envelope nick timestamp ttl db =
      Option.bind (friend_key peer db) λ pk.
        Option.bind (W.ratchet_envelopes.deserialize envelope) λ e.
          let (plaintext, st) =
            ratchet_decrypt W.E.C e
              (load_or_init_ratchet_state W.E.C W.ratchets peer my_peer_id secret pk db) in
          elim plaintext [
            | err e ↦ none
            | ok bytes ↦
                Option.map
                  (λ words. (
                    received peer nick words timestamp ttl,
                    save_ratchet_state W.E.C W.ratchets m.now peer st
                        (save_private_message peer false words timestamp ttl db),
                  ))
                  (W.from_utf8 bytes)
          ]

  unfoldable pub serve_ratchet_private_message :
      Moment
      → String
      → Bytes
      → String
      → Bytes
      → String
      → ℤ
      → Option ℤ
      → Option Db
      → List Effect × Option Db
  serve_ratchet_private_message m my_peer_id secret peer envelope nick timestamp ttl conn =
      conclude ratchet_private_message_ack conn (
        Option.bind conn
          (receive_ratchet_message m my_peer_id secret peer envelope nick timestamp ttl))

  -- A message under the Double Ratchet. The receiver starts a session as the initiator if the
  -- sender's id is the smaller one.
  unfoldable pub receive_x3dh_message :
      Moment
      → String
      → Bytes
      → String
      → Bytes
      → String
      → ℤ
      → Option ℤ
      → Db
      → Option (PmPayload × Db)
  receive_x3dh_message m my_peer_id secret peer envelope nick timestamp ttl db =
      Option.bind (friend_key peer db) λ pk. Option.bind (W.dr_envelopes.deserialize envelope) λ e.
        let (plaintext, st) = decrypt W.E.C (m.draw 1) e (
          load_or_init_dr_state W.E.C W.sessions (m.draw 0) peer secret pk (ltb_id peer my_peer_id)
            db) in
        elim plaintext [
          | err e ↦ none
          | ok bytes ↦
              Option.map
                (λ words. (
                  received peer nick words timestamp ttl,
                  save_dr_state W.E.C W.sessions m.now peer st
                      (save_private_message peer false words timestamp ttl db),
                ))
                (W.from_utf8 bytes)
        ]

  unfoldable pub serve_x3dh_dm :
      Moment
      → String
      → Bytes
      → String
      → Bytes
      → String
      → ℤ
      → Option ℤ
      → Option Db
      → List Effect × Option Db
  serve_x3dh_dm m my_peer_id secret peer envelope nick timestamp ttl conn =
      conclude x3dh_dm_ack conn (
        Option.bind conn
          (receive_x3dh_message m my_peer_id secret peer envelope nick timestamp ttl))
