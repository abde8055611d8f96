-- ===== src/Ratchet/Chain.antt =====
-- The two operations of the symmetric ratchet in closed form, the loop replaced by a chain of keys.
use alter_chat.Base.Result.{ok, err}
use alter_chat.Base.Bytes.{Bytes}
use alter_chat.Base.{
  dec_le, ℕ, zero, suc, ◌+◌, ◌-◌, ◌^◌, ◌<◌, ◌≡◌, refl, ap, none, some, arith, u64,
}
use alter_chat.Crypto.{Crypto}
use alter_chat.Pow.{to_be64}
use alter_chat.Ratchet.{
  RatchetState, RatchetEnvelope, derive_key, advance_chain, advance_to, ratchet_decrypt,
}

module _ (C : Crypto) where
  -- The key of a chain after `n` steps.
  unfoldable pub chain_at : Bytes → ℕ → Bytes
  chain_at k zero = k
  chain_at k (suc n) = advance_chain C (chain_at k n)

  pub chain_at-advance_chain :
      (k : Bytes) (n : ℕ) → chain_at (advance_chain C k) n ≡ chain_at k (suc n)
  unfolding chain_at
  chain_at-advance_chain k zero = refl
  chain_at-advance_chain k (suc n) = ap (advance_chain C) (chain_at-advance_chain k n)

  -- A state whose receiving chain has gone `n` steps on.
  abbrev pub moved : RatchetState → ℕ → RatchetState
  moved st n = record st {
    recv_chain_key = chain_at st.recv_chain_key n;
    recv_count = st.recv_count + n;
  }

  -- The state that the receiver is in when it has the key for a message.
  abbrev pub caught_up : RatchetState → ℕ → RatchetState
  caught_up st counter = moved st (counter - st.recv_count)

  advance_to-moved :
      (n counter : ℕ) (st : RatchetState)
      → st.recv_count + n ≡ counter
      → counter < 2 ^ 64
      → advance_to C n counter st ≡ moved st n
  unfolding advance_to chain_at
  advance_to-moved zero counter st e h = ground arith
  advance_to-moved (suc n) counter st e h = ground (
    arith,
    advance_to-moved n counter
        (record st {
          recv_chain_key = advance_chain C st.recv_chain_key;
          recv_count = u64 (st.recv_count + 1);
        })
        (omega arith) h,
    chain_at-advance_chain st.recv_chain_key n,
  )

  advance_to-caught_up :
      (counter : ℕ) (st : RatchetState)
      → counter < 2 ^ 64
      → advance_to C (counter - st.recv_count) counter st ≡ caught_up st counter
  unfolding advance_to chain_at
  advance_to-caught_up counter st h = elim (dec_le st.recv_count counter) [
    | yes le ↦ advance_to-moved (counter - st.recv_count) counter st (omega arith) h
    | no gt ↦ stay (counter - st.recv_count) (omega arith)
  ]
    where
      stay : (n : ℕ) → n ≡ 0 → advance_to C n counter st ≡ moved st n
      stay zero e = ground arith
      stay (suc n) e = absurd (omega arith)

  -- The loop ends with the count at the message's counter, if it was not beyond it. The message is
  -- then tried with the key of that state; if it is not accepted the state stays there, and if it
  -- is, the chain moves one step further.
  pub ratchet_decrypt-eq :
      (e : RatchetEnvelope) (st : RatchetState)
      → e.counter < 2 ^ 64
      → let st' = caught_up st e.counter in
        ratchet_decrypt C e st
        ≡ elim (C.aead_decrypt
            (derive_key C st'.recv_chain_key (to_be64 e.counter))
            e.nonce
            e.ciphertext) [
              | none ↦ (err "Ratchet decryption failed", st')
              | some p ↦ (
                ok p,
                record st' {
                  recv_chain_key = advance_chain C st'.recv_chain_key;
                  recv_count = u64 (e.counter + 1);
                },
              )
            ]
  unfolding ratchet_decrypt
  ratchet_decrypt-eq e st h = ground (arith, advance_to-caught_up e.counter st h)
