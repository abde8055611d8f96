-- ===== src/Crdt/Published.antt =====
-- What a room's document is to those who get it (alterchat-core/src/crdt.rs).
use alter_chat.Base.{ℕ, String, Option, none, some, ◌≡◌, arith, inl, inr, length, Option-cases}
use alter_chat.Base.Bytes.{Bytes}
use alter_chat.Base.Result.{ok, Result-cases}
use alter_chat.Int.{ℤ}
use alter_chat.Crypto.{Crypto, IsLawful}
use alter_chat.Vault.RoundTrip.{decrypt_payload-encrypt_payload}
use alter_chat.Crdt.{Automerge, Room, save, append_message, add_message, merge}

-- A document that was saved loads as it was.
pub record AutomergeIsLawful (A : Automerge) : Type 0 where
  pub load-save : (doc : A.Doc) → A.load (A.save doc) ≡ ok doc

module _ (A : Automerge) (C : Crypto) (pbkdf2 : Bytes → Bytes → ℕ → Bytes) where
  -- What a message that could be added gives back is the room's document as it is afterwards, saved
  -- under the room's key, which is the same as before.
  append_message-eq-ok :
      (messages_obj : A.Obj) (now : ℤ) (nonce : Bytes) (peer_id sender text : String)
      (ttl : Option ℤ) (room : Room A) {bytes : Bytes} {room' : Room A}
      → append_message A C pbkdf2 messages_obj now nonce peer_id sender text ttl room
        ≡ (ok bytes, room')
      → (save A C pbkdf2 nonce room' ≡ ok bytes) × (room'.encryption_key ≡ room.encryption_key)
  unfolding append_message
  append_message-eq-ok messages_obj now nonce peer_id sender text none room h = ground (arith, h)
  append_message-eq-ok messages_obj now nonce peer_id sender text (some t) room h =
      ground (arith, h)

  pub add_message-eq-ok :
      (now : ℤ) (nonce : Bytes) (peer_id sender text : String) (ttl : Option ℤ) (room : Room A)
      {bytes : Bytes} {room' : Room A}
      → add_message A C pbkdf2 now nonce peer_id sender text ttl room ≡ some (ok bytes, room')
      → (save A C pbkdf2 nonce room' ≡ ok bytes) × (room'.encryption_key ≡ room.encryption_key)
  unfolding add_message
  add_message-eq-ok now nonce peer_id sender text ttl room h =
      elim (Result-cases (A.get_object room.doc A.root "messages")) [
        | inl (e, broken) ↦ absurd (ground (arith, h, broken))
        | inr (found, got) ↦ elim (Option-cases found) [
          | inl gap ↦ absurd (ground (arith, h, got, gap))
          | inr (obj, there) ↦
              append_message-eq-ok obj now nonce peer_id sender text ttl room
                (ground (arith, h, got, there))
        ]
      ]

  -- A document that was saved under the room's key is merged into the room's own.
  pub merge-save :
      IsLawful C
      → AutomergeIsLawful A
      → (nonce bytes : Bytes) (room other : Room A) {doc : A.Doc} → length nonce ≡ 12
      → save A C pbkdf2 nonce room ≡ ok bytes
      → room.encryption_key ≡ other.encryption_key
      → A.merge other.doc room.doc ≡ ok doc
      → merge A C pbkdf2 bytes other ≡ (ok tt, record other { doc = doc })
  unfolding merge save
  merge-save L lawful nonce bytes room other size saved same_key merged = ground (
    arith,
    decrypt_payload-encrypt_payload C L room.encryption_key nonce (A.save room.doc) size saved,
    lawful.load-save room.doc,
    same_key,
    merged,
  )
