-- ===== src/Ratchet/Pair.antt =====
-- The two ends of a pair (alterchat-core/src/crypto.rs), and what a forged counter does.
use alter_chat.Base.Result.{err, ok_or}
use alter_chat.Base.Bytes.{Bytes}
use alter_chat.Base.{
  ◌+◌, ap, ◌∙◌, inl, inr, Bool-cases, ◌-◌, ◌^◌, ◌≤◌, ◌<◌, String, ◌≡◌, refl, ◌≢◌, true, false, none,
  [], ◌∷◌, arith,
}
use alter_chat.Crypto.{Crypto, IsLawful}
use alter_chat.Base.Text.{as_bytes}
use alter_chat.Pow.{to_be64}
use alter_chat.Ratchet.{
  RatchetState, RatchetEnvelope, leb_bytes, derive_key, for_peer_pair, derive_static_shared_secret,
  ratchet_decrypt,
}
use alter_chat.Ratchet.Chain.{ratchet_decrypt-eq, chain_at, caught_up}
use alter_chat.Ratchet.Session.{InSync}

leb_bytes_total : (xs ys : Bytes) → leb_bytes xs ys ≡ false → leb_bytes ys xs ≡ true
unfolding leb_bytes
leb_bytes_total [] ys h = ground arith
leb_bytes_total (x ∷ xs) [] h = refl
leb_bytes_total (x ∷ xs) (y ∷ ys) h = ground (arith, leb_bytes_total xs ys)

leb_bytes_antisymm : (xs ys : Bytes) → leb_bytes xs ys ≡ true → leb_bytes ys xs ≡ true → xs ≡ ys
unfolding leb_bytes
leb_bytes_antisymm [] [] h h' = refl
leb_bytes_antisymm [] (y ∷ ys) h h' = ground arith
leb_bytes_antisymm (x ∷ xs) [] h h' = ground arith
leb_bytes_antisymm (x ∷ xs) (y ∷ ys) h h' = ground (arith, leb_bytes_antisymm xs ys)

module _ (C : Crypto) (L : IsLawful C) (my_secret peer_secret : Bytes)
    (my_id peer_id : String) where
  abbrev mine : RatchetState
  mine =
      for_peer_pair C (derive_static_shared_secret C my_secret (C.public_key peer_secret)) my_id
        peer_id

  abbrev theirs : RatchetState
  theirs =
      for_peer_pair C (derive_static_shared_secret C peer_secret (C.public_key my_secret)) peer_id
        my_id

  mirrored :
      as_bytes my_id ≢ as_bytes peer_id
      → (mine.send_chain_key ≡ theirs.recv_chain_key)
        × (theirs.send_chain_key ≡ mine.recv_chain_key)
  unfolding for_peer_pair derive_static_shared_secret
  mirrored h = elim (Bool-cases (leb_bytes (as_bytes my_id) (as_bytes peer_id))) [
    | inl e ↦ elim (Bool-cases (leb_bytes (as_bytes peer_id) (as_bytes my_id))) [
      | inl e' ↦ absurd (h (leb_bytes_antisymm (as_bytes my_id) (as_bytes peer_id) e e'))
      | inr e' ↦ ground (arith, e, e', L.dh_comm my_secret peer_secret)
    ]
    | inr e ↦ ground (
      arith,
      e,
      leb_bytes_total (as_bytes my_id) (as_bytes peer_id) e,
      L.dh_comm my_secret peer_secret,
    )
  ]

  -- Two parties with different names who have each other's public key start in step, in both
  -- directions, with the same root key.
  pub for_peer_pair-InSync :
      as_bytes my_id ≢ as_bytes peer_id
      → InSync C mine theirs × InSync C theirs mine × (mine.root_key ≡ theirs.root_key)
  unfolding for_peer_pair derive_static_shared_secret chain_at
  for_peer_pair-InSync h =
      let (forth, back) = mirrored h in
      (
        record { behind = omega arith; same_chain = forth },
        record { behind = omega arith; same_chain = back },
        ground (arith, L.dh_comm my_secret peer_secret),
      )

module _ (C : Crypto) where
  -- A message that is not ahead is tried with the key of the state as it is.
  tried_with :
      (e : RatchetEnvelope) (st : RatchetState)
      → e.counter ≤ st.recv_count
      → e.counter < 2 ^ 64
      → (ratchet_decrypt C e st).0
        ≡ ok_or
            (C.aead_decrypt
              (derive_key C st.recv_chain_key (to_be64 e.counter))
              e.nonce
              e.ciphertext)
            "Ratchet decryption failed"
  unfolding chain_at
  tried_with e st le lt =
      let same : caught_up C st e.counter ≡ st =
        ap
          (λ n. record st {
            recv_chain_key = chain_at C st.recv_chain_key n;
            recv_count = st.recv_count + n;
          })
          {x = e.counter - st.recv_count} {y = 0} (omega arith)
        ∙ ap (λ n. record st { recv_count = n }) {x = st.recv_count + 0} {y = st.recv_count}
            (omega arith) in
      ground (arith, ratchet_decrypt-eq C e st lt, same)

  -- A forged message with a counter ahead, which is not accepted, moves the receiver's count to that
  -- counter all the same; the genuine message behind it is then tried with the key of the state it
  -- has been moved to, which is the key of another step of the chain.
  pub forged_counter_desyncs :
      (forged genuine : RatchetEnvelope) (st : RatchetState)
      → forged.counter < 2 ^ 64
      → st.recv_count ≤ genuine.counter
      → genuine.counter < forged.counter
      → let st' = caught_up C st forged.counter in
        C.aead_decrypt
            (derive_key C st'.recv_chain_key (to_be64 forged.counter))
            forged.nonce
            forged.ciphertext
          ≡ none
        → (ratchet_decrypt C forged st ≡ (err "Ratchet decryption failed", st'))
          × (st'.recv_count ≡ forged.counter)
          × ((ratchet_decrypt C genuine st').0
              ≡ ok_or
                  (C.aead_decrypt
                    (derive_key C
                      (chain_at C st.recv_chain_key (forged.counter - st.recv_count))
                      (to_be64 genuine.counter))
                    genuine.nonce
                    genuine.ciphertext)
                  "Ratchet decryption failed")
  unfolding chain_at
  forged_counter_desyncs forged genuine st h behind ahead refused = (
    ground (arith, ratchet_decrypt-eq C forged st h, refused),
    omega arith,
    tried_with genuine (caught_up C st forged.counter) (omega arith) (omega arith),
  )
