-- ===== src/Ratchet.antt =====
-- The symmetric ratchet of alterchat-core/src/crypto.rs: two chains of keys from one shared secret.
-- Nonces are arguments; the `while` loop takes the number of its rounds as fuel.
pub mod Chain
pub mod Session
pub mod Pair
mod Tests
use alter_chat.Base.Result.{ok_or}
use alter_chat.Base.Bytes.{Bytes}
use alter_chat.Base.{
  ℕ, zero, suc, ◌+◌, ◌-◌, String, Bool, true, false, [], ◌∷◌, ◌++◌, ltb, if◌then◌else◌, u64,
}
use alter_chat.Base.Action.{Action, pure, lift, gets, modify, ◌>>=◌, ◌>>◌}
use alter_chat.Crypto.{Crypto}
use alter_chat.Base.Text.{as_bytes}
use alter_chat.Pow.{to_be64}

pub record RatchetState : Type 0 where
  pub root_key : Bytes
  pub send_chain_key : Bytes
  pub recv_chain_key : Bytes
  pub send_count : ℕ
  pub recv_count : ℕ

pub record RatchetEnvelope : Type 0 where
  pub counter : ℕ
  pub nonce : Bytes
  pub ciphertext : Bytes

-- `<=` of two byte strings: the first byte that differs decides.
unfoldable pub leb_bytes : Bytes → Bytes → Bool
leb_bytes [] ys = true
leb_bytes (x ∷ xs) [] = false
leb_bytes (x ∷ xs) (y ∷ ys) =
    let rest = leb_bytes xs ys in if ltb x y then true else if ltb y x then false else rest

module _ (C : Crypto) where
  unfoldable pub derive_key : Bytes → Bytes → Bytes
  derive_key input label = C.sha256 (input ++ label)

  unfoldable pub advance_chain : Bytes → Bytes
  advance_chain chain_key = derive_key chain_key (as_bytes "next")

  unfoldable pub from_shared_secret : Bytes → RatchetState
  from_shared_secret shared_secret = record {
    root_key = derive_key shared_secret (as_bytes "root");
    send_chain_key = derive_key shared_secret (as_bytes "send");
    recv_chain_key = derive_key shared_secret (as_bytes "recv");
    send_count = 0;
    recv_count = 0;
  }

  unfoldable pub for_peer_pair : Bytes → String → String → RatchetState
  for_peer_pair shared_secret local_id remote_id =
      let low_to_high = derive_key shared_secret (as_bytes "low_to_high") in
      let high_to_low = derive_key shared_secret (as_bytes "high_to_low") in
      let (send_chain_key, recv_chain_key) : Bytes × Bytes =
        (if leb_bytes (as_bytes local_id) (as_bytes remote_id)
          then (low_to_high, high_to_low)
          else (high_to_low, low_to_high)) in
      record {
        root_key = derive_key shared_secret (as_bytes "root");
        send_chain_key = send_chain_key;
        recv_chain_key = recv_chain_key;
        send_count = 0;
        recv_count = 0;
      }

  unfoldable pub derive_static_shared_secret : Bytes → Bytes → Bytes
  derive_static_shared_secret my_secret peer_pubkey = C.diffie_hellman my_secret peer_pubkey

  unfoldable pub ratchet_encrypt : Bytes → Bytes → Action RatchetState RatchetEnvelope
  ratchet_encrypt nonce plaintext = do
    st ← gets (λ st. st)
    let message_key = derive_key st.send_chain_key (to_be64 st.send_count)
    ciphertext ←
        lift (ok_or (C.aead_encrypt message_key nonce plaintext) "Ratchet encryption failed")
    modify (λ st. record st {
      send_chain_key = advance_chain st.send_chain_key;
      send_count = u64 (st.send_count + 1);
    })
    pure (record { counter = st.send_count; nonce = nonce; ciphertext = ciphertext })

  -- `while state.recv_count < envelope.counter`, with fuel.
  unfoldable pub advance_to : ℕ → ℕ → RatchetState → RatchetState
  advance_to zero counter st = st
  advance_to (suc fuel) counter st =
      let rest = advance_to fuel counter (record st {
        recv_chain_key = advance_chain st.recv_chain_key;
        recv_count = u64 (st.recv_count + 1);
      }) in
      if ltb st.recv_count counter then rest else st

  unfoldable pub ratchet_decrypt : RatchetEnvelope → Action RatchetState Bytes
  ratchet_decrypt envelope = do
    modify (λ st. advance_to (envelope.counter - st.recv_count) envelope.counter st)
    chain_key ← gets (λ st. st.recv_chain_key)
    let message_key = derive_key chain_key (to_be64 envelope.counter)
    plaintext ← lift (
        ok_or (C.aead_decrypt message_key envelope.nonce envelope.ciphertext)
          "Ratchet decryption failed")
    modify (λ st. record st {
      recv_chain_key = advance_chain st.recv_chain_key;
      recv_count = u64 (envelope.counter + 1);
    })
    pure plaintext
