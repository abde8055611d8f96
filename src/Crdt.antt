-- ===== src/Crdt.antt =====
-- A room as a shared document (alterchat-core/src/crdt.rs), over the automerge library, which is a
-- parameter. Nonces and the clock are arguments; a computation that ends in a panic is `none`.
pub mod Expiry
pub mod Published
use alter_chat.Base.{
  ℕ, zero, suc, ◌+◌, String, Bool, false, Option, none, some, List, [], ◌∷◌, if◌then◌else◌,
}
use mathlib.Core.Option
use alter_chat.Base.Bytes.{Bytes}
use alter_chat.Base.Result.{Result, ok, err, map_ok}
use alter_chat.Base.Action.{Action, lift, gets, modify, ◌>>=◌, ◌>>◌}
use alter_chat.Int.{ℤ, pos, ◌-ℤ◌, ◌*ℤ◌, ltb_ℤ, i64}
use alter_chat.Crypto.{Crypto}
use alter_chat.Vault.{derive_room_key, encrypt_payload, decrypt_payload}

-- The functions of automerge that the room uses: documents, the objects in them, and a value read as
-- a text or as an `i64`.
pub record Automerge : Type 1 where
  pub Doc : Type 0
  pub Obj : Type 0
  pub new : Doc
  pub root : Obj
  pub load : Bytes → Result Doc
  pub save : Doc → Bytes
  pub commit : Doc → Doc
  pub merge : Doc → Doc → Result Doc
  pub put_list : Obj → String → Doc → Result Doc
  pub insert_map : Obj → ℕ → Doc → Result (Obj × Doc)
  pub put_text : Obj → String → String → Doc → Result Doc
  pub put_i64 : Obj → String → ℤ → Doc → Result Doc
  pub length : Doc → Obj → ℕ
  pub get_object : Doc → Obj → String → Result (Option Obj)
  pub get_at : Doc → Obj → ℕ → Result (Option Obj)
  pub get_text : Doc → Obj → String → Result (Option String)
  pub get_i64 : Doc → Obj → String → Result (Option ℤ)

pub record CrdtMessage : Type 0 where
  pub peer_id : String
  pub sender : String
  pub text : String
  pub timestamp : ℤ
  pub ttl : Option ℤ

pub record Room (A : Automerge) : Type 0 where
  pub id : String
  pub doc : A.Doc
  pub encryption_key : Bytes

-- `(now - timestamp) > (t * 1000)`, at 64 bits.
unfoldable pub has_expired : ℤ → ℤ → Option ℤ → Bool
has_expired now timestamp ttl =
    Option.get_or (Option.map (λ t. ltb_ℤ (i64 (t *ℤ pos 1000)) (i64 (now -ℤ timestamp))) ttl) false

unfoldable pub message_expired : String
message_expired = "[MESSAGE EXPIRED]"

-- `get(..).unwrap()`: an error is a panic.
abbrev pub unwrap : {T : Type 0} → Result T → Option T
unwrap (ok t) = some t
unwrap (err e) = none

module _ (A : Automerge) (C : Crypto) (pbkdf2 : Bytes → Bytes → ℕ → Bytes) where
  unfoldable pub new_room : String → Option String → Option (Room A)
  new_room id password =
      Option.map
        (λ doc. record { id = id; doc = doc; encryption_key = derive_room_key pbkdf2 id password })
        (unwrap (A.put_list A.root "messages" A.new))

  unfoldable pub load : String → Bytes → Option String → Result (Room A)
  load id bytes password =
      let encryption_key = derive_room_key pbkdf2 id password in
      elim (decrypt_payload C encryption_key bytes) [
        | err e ↦ err e
        | ok decrypted ↦
            map_ok (λ doc. record { id = id; doc = doc; encryption_key = encryption_key })
              (A.load decrypted)
      ]

  unfoldable pub save : Bytes → Room A → Result Bytes
  save nonce room = encrypt_payload C room.encryption_key nonce (A.save room.doc)

  -- A call on the document: what it has changed stays, and an error returns.
  abbrev change : (A.Doc → Result A.Doc) → Action (Room A) (Unit {0})
  change f room = elim (f room.doc) [
    | ok doc ↦ (ok tt, record room { doc = doc })
    | err e ↦ (err e, room)
  ]

  abbrev insert_message : A.Obj → Action (Room A) A.Obj
  insert_message messages_obj room =
      elim (A.insert_map messages_obj (A.length room.doc messages_obj) room.doc) [
        | ok (msg_obj, doc) ↦ (ok msg_obj, record room { doc = doc })
        | err e ↦ (err e, room)
      ]

  -- `add_message`, once the list of messages is found.
  unfoldable pub append_message :
      A.Obj → ℤ → Bytes → String → String → String → Option ℤ → Action (Room A) Bytes
  append_message messages_obj now nonce peer_id sender text ttl = do
    msg_obj ← insert_message messages_obj
    change (A.put_text msg_obj "peer_id" peer_id)
    change (A.put_text msg_obj "sender" sender)
    change (A.put_text msg_obj "text" text)
    change (A.put_i64 msg_obj "timestamp" now)
    elim ttl [ none ↦ modify (λ room. room) | some t ↦ change (A.put_i64 msg_obj "ttl" t) ]
    modify (λ room. record room { doc = A.commit room.doc })
    saved ← gets (save nonce)
    lift saved

  unfoldable pub add_message :
      ℤ → Bytes → String → String → String → Option ℤ → Room A → Option (Result Bytes × Room A)
  add_message now nonce peer_id sender text ttl room =
      elim (A.get_object room.doc A.root "messages") [
        | err e ↦ some (err e, room)
        | ok found ↦ elim found [
          | none ↦ none
          | some messages_obj ↦
              some (append_message messages_obj now nonce peer_id sender text ttl room)
        ]
      ]

  unfoldable pub merge : Bytes → Action (Room A) (Unit {0})
  merge other_bytes = do
    encryption_key ← gets (λ room. room.encryption_key)
    decrypted ← lift (decrypt_payload C encryption_key other_bytes)
    other_doc ← lift (A.load decrypted)
    change (λ doc. A.merge doc other_doc)

  -- The message of an object of the list, its text replaced if its time is over.
  unfoldable pub read_message : ℤ → A.Doc → A.Obj → Option CrdtMessage
  read_message now doc msg_obj = Option.bind (unwrap (A.get_text doc msg_obj "sender")) λ sender.
      Option.bind (unwrap (A.get_text doc msg_obj "text")) λ text.
        Option.bind (unwrap (A.get_i64 doc msg_obj "timestamp")) λ timestamp.
          Option.bind (unwrap (A.get_i64 doc msg_obj "ttl")) λ ttl. some (record {
            peer_id =
                Option.get_or (elim (A.get_text doc msg_obj "peer_id") [ ok p ↦ p | err e ↦ none ])
                  "";
            sender = Option.get_or sender "";
            text =
                if has_expired now (Option.get_or timestamp (pos 0)) ttl
                then message_expired
                else Option.get_or text "";
            timestamp = Option.get_or timestamp (pos 0);
            ttl = ttl;
          })

  -- The loop over `n` indices from `i` on.
  unfoldable pub messages_from : ℤ → A.Doc → A.Obj → ℕ → ℕ → Option (Result (List CrdtMessage))
  messages_from now doc messages_obj zero i = some (ok [])
  messages_from now doc messages_obj (suc n) i =
      let rest = messages_from now doc messages_obj n (i + 1) in
      elim (A.get_at doc messages_obj i) [
        | err e ↦ some (err e)
        | ok found ↦ elim found [
          | none ↦ rest
          | some msg_obj ↦ elim (read_message now doc msg_obj) [
            | none ↦ none
            | some msg ↦ Option.map (map_ok (λ msgs. msg ∷ msgs)) rest
          ]
        ]
      ]

  unfoldable pub get_messages : ℤ → Room A → Option (Result (List CrdtMessage))
  get_messages now room = elim (A.get_object room.doc A.root "messages") [
    | err e ↦ some (err e)
    | ok found ↦ elim found [
      | none ↦ some (ok [])
      | some messages_obj ↦
          messages_from now room.doc messages_obj (A.length room.doc messages_obj) 0
    ]
  ]
