-- ===== src/Envelope/Tests.antt =====
-- Sealed messages (alterchat-core/src/crypto.rs) on small inputs.
use alter_chat.Base.{
  String, true, none, some, Option, [], ◌∷◌, ◌≡◌, sym, inl, inr, arith, Bool-cases, if◌then◌else◌,
}
use alter_chat.Base.Bytes.{Bytes}
use alter_chat.Base.Equality.{◌==◌, ==_sound, string_eq}
use alter_chat.Envelope.{SealedCodec, SealedIsLawful}

-- Only messages of alice, whose public key is the empty one, are serialized, as what they say.
only_alice : Bytes → String → Bytes → Option Bytes
only_alice [] name payload = if name == "alice" then some payload else none
only_alice (b ∷ bs) name payload = none

abbrev codec : SealedCodec
codec = record {
  serialize = λ inner. only_alice inner.sender_pubkey inner.sender_peer_id inner.payload;
  deserialize = λ b. some (record { sender_pubkey = []; sender_peer_id = "alice"; payload = b });
}

alice_back :
    (key : Bytes) (name : String) (payload : Bytes) {b : Bytes}
    → only_alice key name payload ≡ some b
    → codec.deserialize b
      ≡ some (record { sender_pubkey = key; sender_peer_id = name; payload = payload })
unfolding only_alice
alice_back [] name payload {b} h = elim (Bool-cases (name == "alice")) [
  | inl same ↦ λ i. some (record {
    sender_pubkey = [];
    sender_peer_id = sym (==_sound {a = name} {b = "alice"} same) i;
    payload = sym (payload_of same) i;
  })
  | inr other ↦ ground (arith, other, h)
]
  where
    payload_of : (name == "alice") ≡ true → payload ≡ b
    payload_of same = ground (arith, same, h)
alice_back (k ∷ key) name payload h = ground arith

codec-IsLawful : SealedIsLawful codec
codec-IsLawful = record {
  read_back = λ inner h. alice_back inner.sender_pubkey inner.sender_peer_id inner.payload h;
}
