-- ===== src/Node/Delivery/Toy.antt =====
-- Small encodings for the tests of a message on its way.
use alter_chat.Base.{
  String, Option, some, none, [], ◌∷◌, ◌++◌, ◌≡◌, ◌&&◌, sym, subst, arith, if◌then◌else◌, length,
  take, drop, take-append_self, drop-append_self,
}
use alter_chat.Base.Equality.{◌==◌, ==_sound, string_eq}
use alter_chat.Desk.Sessions.{Bincode}
use alter_chat.Envelope.{EncryptedPayload}
use alter_chat.Node.Delivery.Mailbox.{BincodeIsLawful}
use alter_chat.Base.Bytes.{Bytes}
use alter_chat.Int.{ℤ, pos, negsuc}
use alter_chat.Node.Types.{OfflineMsg}

-- Messages of carol that say hi, at a whole number of milliseconds and for ever, are serialized.
unfoldable pub only_hi : String → String → String → ℤ → Option ℤ → Bytes → Option Bytes
only_hi sender nick words (pos n) none nonce =
    if (sender == "carol") && ((nick == "Carol") && (words == "hi")) then some (n ∷ nonce) else none
only_hi sender nick words (pos n) (some t) nonce = none
only_hi sender nick words (negsuc n) ttl nonce = none

unfoldable pub read_hi : Bytes → Option OfflineMsg
read_hi [] = none
read_hi (n ∷ nonce) = some (record {
  sender_peer_id = "carol";
  sender_nick = "Carol";
  text = "hi";
  timestamp = pos n;
  ttl = none;
  nonce = nonce;
})

only_hi_back :
    (sender nick words : String) (timestamp : ℤ) (ttl : Option ℤ) (nonce : Bytes) {b : Bytes}
    → only_hi sender nick words timestamp ttl nonce ≡ some b
    → read_hi b
      ≡ some (record {
        sender_peer_id = sender;
        sender_nick = nick;
        text = words;
        timestamp = timestamp;
        ttl = ttl;
        nonce = nonce;
      })
unfolding only_hi read_hi
only_hi_back sender nick words (pos n) none nonce {b} h =
    subst
      (λ c.
        read_hi c
        ≡ some (record {
          sender_peer_id = sender;
          sender_nick = nick;
          text = words;
          timestamp = pos n;
          ttl = none;
          nonce = nonce;
        }))
      (same_bytes h)
      (λ i. some (record {
        sender_peer_id = sym (==_sound {a = sender} {b = "carol"} (ground (arith, h))) i;
        sender_nick = sym (==_sound {a = nick} {b = "Carol"} (ground (arith, h))) i;
        text = sym (==_sound {a = words} {b = "hi"} (ground (arith, h))) i;
        timestamp = pos n;
        ttl = none;
        nonce = nonce;
      }))
  where
    same_bytes : only_hi sender nick words (pos n) none nonce ≡ some b → n ∷ nonce ≡ b
    same_bytes e = ground (arith, e)
only_hi_back sender nick words (pos n) (some t) nonce h = ground arith
only_hi_back sender nick words (negsuc n) ttl nonce h = ground arith

abbrev pub hi : Bincode OfflineMsg
hi = record {
  serialize =
      λ msg. only_hi msg.sender_peer_id msg.sender_nick msg.text msg.timestamp msg.ttl msg.nonce;
  deserialize = read_hi;
}

pub hi-IsLawful : BincodeIsLawful OfflineMsg hi
hi-IsLawful = record {
  deserialize-serialize = λ msg h.
      only_hi_back msg.sender_peer_id msg.sender_nick msg.text msg.timestamp msg.ttl msg.nonce h;
}

-- An encrypted message is the lengths of its first two parts, and the parts.
unfoldable pub read_parts : Bytes → Option EncryptedPayload
read_parts (a ∷ b ∷ rest) = some (record {
  ephemeral_pubkey = take a rest;
  nonce = take b (drop a rest);
  ciphertext = drop b (drop a rest);
})
read_parts short = none

abbrev pub parts : Bincode EncryptedPayload
parts = record {
  serialize = λ p. some (
      length p.ephemeral_pubkey
      ∷ length p.nonce
      ∷ (p.ephemeral_pubkey ++ (p.nonce ++ p.ciphertext)));
  deserialize = read_parts;
}

pub parts-IsLawful : BincodeIsLawful EncryptedPayload parts
unfolding read_parts
parts-IsLawful = record {
  deserialize-serialize = λ p h. ground (
    arith,
    h,
    take-append_self p.ephemeral_pubkey (p.nonce ++ p.ciphertext),
    drop-append_self p.ephemeral_pubkey (p.nonce ++ p.ciphertext),
    take-append_self p.nonce p.ciphertext,
    drop-append_self p.nonce p.ciphertext,
  );
}
