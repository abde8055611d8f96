-- ===== src/Node/Reading.antt =====
-- When a message under the Double Ratchet can be read, said of the table of friends and of the
-- libraries (`X3dhDm` in the handler of alterchat-ui/src-tauri/src/lib.rs).
use alter_chat.Base.{
  String, true, false, not, ◌&&◌, Option, none, some, List, [], ◌∷◌, ◌≡◌, ◌≢◌, ◌⊎◌, ap, arith, inl,
  inr, Bool-cases, length, ◌∙◌,
}
use mathlib.Core.Option
use alter_chat.Base.Bytes.{Bytes}
use alter_chat.Base.Equality.{◌==◌, string_eq, ==_sound, ==_of_eq}
use alter_chat.Base.Result.{ok, bind-eq-some}
use alter_chat.Int.{ℤ}
use alter_chat.DoubleRatchet.{DrState, DrEnvelope, decrypt}
use alter_chat.Db.Rows.{Friend}
use alter_chat.Db.Schema.{Db}
use alter_chat.Db.Messages.{get_friends, save_private_message}
use alter_chat.Desk.Sessions.{load_or_init_dr_state, save_dr_state}
use alter_chat.Node.Types.{World, Moment, Node, PmPayload, decode_x25519_hex}
use alter_chat.Node.Direct.{find_friend, friend_key, ltb_id, receive_x3dh_message, received}
use alter_chat.Node.Received.{receive_x3dh_message_inv}

-- A row of the peer that is not blocked.
unfoldable pub IsOpen : String → Friend → Type 0
IsOpen peer f = (f.peer_id ≡ peer) × (f.blocked ≡ false)

-- The first of these in a table.
unfoldable pub IsFriend : String → Friend → List Friend → Type 0
IsFriend peer f [] = ⊥
IsFriend peer f (g ∷ friends) =
    ((g ≡ f) × IsOpen peer g) ⊎ ((¬ IsOpen peer g) × IsFriend peer f friends)

-- An envelope says `words` under the session with its sender, whose next state is `st`: the sender
-- is a friend who is not blocked and has a key of 32 bytes.
unfoldable pub IsRead :
    (W : World) → Moment → Node W → Db → String → Bytes → String → DrState → Type 0
IsRead W m node db peer envelope words st =
    (f : Friend) × (hex_key : String) × (pk : Bytes) × (e : DrEnvelope) × (bytes : Bytes) × IsFriend
      peer f db.friends
    × (f.offline_pubkey ≡ some hex_key)
    × (W.hex_decode hex_key ≡ some pk)
    × (length pk ≡ 32)
    × (W.dr_envelopes.deserialize envelope ≡ some e)
    × (decrypt W.E.C (m.draw 1) e (
          load_or_init_dr_state W.E.C W.sessions (m.draw 0) peer node.offline_secret pk
            (ltb_id peer node.peer_id) db)
        ≡ (ok bytes, st))
    × (W.from_utf8 bytes ≡ some words)

IsOpen-iff :
    (peer : String) (f : Friend)
    → ((f.peer_id == peer && not f.blocked) ≡ true → IsOpen peer f)
      × (IsOpen peer f → (f.peer_id == peer && not f.blocked) ≡ true)
unfolding IsOpen
IsOpen-iff peer f = (
  (λ h. (==_sound {a = f.peer_id} {b = peer} (ground (arith, h)), ground (arith, h))),
  λ (same, free). ground (arith, ==_of_eq same, free),
)

find_friend-IsFriend :
    (peer : String) (f : Friend) (friends : List Friend)
    → find_friend (λ f. f.peer_id == peer && not f.blocked) friends ≡ some f
    → IsFriend peer f friends
unfolding find_friend IsFriend
find_friend-IsFriend peer f [] h = absurd (ground (arith, h))
find_friend-IsFriend peer f (g ∷ friends) h =
    elim (Bool-cases (g.peer_id == peer && not g.blocked)) [
      | inl free ↦ inl (ground (arith, h, free), (IsOpen-iff peer g).0 free)
      | inr shut' ↦ inr (
        (λ free. absurd (ground (arith, shut', (IsOpen-iff peer g).1 free))),
        find_friend-IsFriend peer f friends (ground (arith, h, shut')),
      )
    ]

find_friend_lem :
    (peer : String) (f : Friend) (friends : List Friend)
    → IsFriend peer f friends
    → find_friend (λ f. f.peer_id == peer && not f.blocked) friends ≡ some f
unfolding find_friend IsFriend
find_friend_lem peer f [] h = elim h [ ]
find_friend_lem peer f (g ∷ friends) (inl (same, free)) =
    ground (arith, same, (IsOpen-iff peer g).1 free)
find_friend_lem peer f (g ∷ friends) (inr (shut, later)) =
    elim (Bool-cases (g.peer_id == peer && not g.blocked)) [
      | inl free ↦ absurd (shut ((IsOpen-iff peer g).0 free))
      | inr shut' ↦ ground (arith, shut', find_friend_lem peer f friends later)
    ]

-- The key of a friend.
friend_key-eq-some :
    (W : World) (peer : String) (db : Db) {pk : Bytes}
    → friend_key W peer db ≡ some pk
    → (f : Friend) × (hex_key : String) × IsFriend peer f db.friends
      × (f.offline_pubkey ≡ some hex_key)
      × (W.hex_decode hex_key ≡ some pk)
      × (length pk ≡ 32)
unfolding friend_key get_friends decode_x25519_hex
friend_key-eq-some W peer db {pk} h =
    let (f, found, h₁) =
      bind-eq-some (find_friend (λ f. f.peer_id == peer && not f.blocked) db.friends) _ h in
    let (hex_key, has_key, h₂) = bind-eq-some f.offline_pubkey _ h₁ in
    let (bytes, decoded, h₃) = bind-eq-some (W.hex_decode hex_key) _ h₂ in
    let same : bytes ≡ pk = ground (arith, h₃) in
    (
      f,
      hex_key,
      find_friend-IsFriend peer f db.friends found,
      has_key,
      decoded ∙ ap some same,
      ground (arith, h₃),
    )

module _ (W : World) (m : Moment) (node : Node W) (db : Db) (peer : String) (envelope : Bytes)
    (nick : String) (timestamp : ℤ) (ttl : Option ℤ) where
  -- A message that can be read is not turned away.
  pub IsRead-taken :
      (words : String) (st : DrState)
      → IsRead W m node db peer envelope words st
      → receive_x3dh_message W m node.peer_id node.offline_secret peer envelope nick timestamp ttl
          db
        ≢ none
  unfolding IsRead receive_x3dh_message friend_key get_friends decode_x25519_hex Option.bind
  IsRead-taken words st
        (f, hex_key, pk, e, bytes, friend, has_key, decoded, size, parsed, opened, text) h =
      ground (
        arith,
        find_friend_lem peer f db.friends friend,
        has_key,
        decoded,
        size,
        parsed,
        opened,
        text,
        h,
      )

  -- One that is taken could be read.
  pub receive_x3dh_message-IsRead :
      {msg : PmPayload} {db' : Db}
      → receive_x3dh_message W m node.peer_id node.offline_secret peer envelope nick timestamp ttl
          db
        ≡ some (msg, db')
      → (words : String) × (st : DrState) × IsRead W m node db peer envelope words st
        × (msg ≡ received peer nick words timestamp ttl)
        × (db'
            ≡ save_dr_state W.E.C W.sessions m.now peer st
                (save_private_message peer false words timestamp ttl db))
  unfolding IsRead
  receive_x3dh_message-IsRead h =
      let (pk, e, words, st, bytes, known, parsed, opened, text, same_msg, same_db) =
        receive_x3dh_message_inv W m node.peer_id node.offline_secret peer envelope nick timestamp
          ttl db h in
      let (f, hex_key, friend, has_key, decoded, size) = friend_key-eq-some W peer db known in
      (
        words,
        st,
        (f, hex_key, pk, e, bytes, friend, has_key, decoded, size, parsed, opened, text),
        same_msg,
        same_db,
      )
