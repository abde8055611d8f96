-- ===== src/DoubleRatchet/Receive.antt =====
-- One epoch of the receiving side: which keys it still holds, and what `decrypt` does with a
-- genuine message of the chain, early, late or in its turn.
use alter_chat.Base.Result.{ok}
use alter_chat.Base.Bytes.{Bytes}
use alter_chat.Base.{
  ap, ◌-◌, ◌^◌, sym, ◌∙◌, subst, ℕ, zero, suc, ◌+◌, ◌≤◌, ◌<◌, ◌≡◌, refl, Bool, true, false, ◌&&◌,
  none, some, List, [], ◌∷◌, ◌++◌, arith, ltb, leb, eqb, if◌then◌else◌,
}
use alter_chat.Crypto.{Crypto, IsLawful}
use alter_chat.DoubleRatchet.{
  use_chain, max_skip, DrHeader, skip_message_keys, advance, DrState, DrEnvelope, SkippedKey,
  is_key_of, decrypt_with_key, try_skipped, decrypt,
}
use alter_chat.DoubleRatchet.Chain.{
  chain_key-suc, skip_loop_lem, chain_key, message_key, stored_keys,
}
use alter_chat.DoubleRatchet.Skipped.{take_first_lem, IsTaken, take_first-none, find_key}

pub find_key-append :
    (d : Bytes) (j : ℕ) (xs ys : List SkippedKey)
    → find_key d j (xs ++ ys) ≡ elim (find_key d j xs) [ none ↦ find_key d j ys | some m ↦ some m ]
unfolding find_key
find_key-append d j [] ys = refl
find_key-append d j (x ∷ xs) ys = ground (arith, find_key-append d j xs ys)

abbrev pub elem : ℕ → List ℕ → Bool
elem i [] = false
elem i (j ∷ js) = if eqb i j then true else elem i js

module _ (C : Crypto) where
  pub find_key-stored_keys :
      (d ck : Bytes) (j i count : ℕ)
      → find_key d j (stored_keys C d ck i count)
        ≡ (if leb i j && ltb j (i + count) then some (message_key C ck j) else none)
  unfolding find_key stored_keys is_key_of
  find_key-stored_keys d ck j i zero = ground arith
  find_key-stored_keys d ck j i (suc count) =
      ground (arith, find_key-stored_keys d ck j (i + 1) count)

  -- A message of the chain that starts at `ck`, sent under the ratchet key `d`.
  pub record IsSent (d ck : Bytes) (e : DrEnvelope) (plaintext : Bytes) : Type 0 where
    pub sender : e.header.dh ≡ d
    pub sealed : C.aead_encrypt (message_key C ck e.header.n) e.nonce plaintext ≡ some e.ciphertext

  -- The receiver follows the chain: it stands at index `n_recv`, holds the key of every earlier
  -- message that is not in `used`, and none of a later one.
  pub record Follows (d ck : Bytes) (used : List ℕ) (st : DrState) : Type 0 where
    pub peer : st.dh_recv ≡ some d
    pub chain : st.ck_recv ≡ some (chain_key C ck st.n_recv)
    pub held :
        (i : ℕ)
        → i < st.n_recv
        → elem i used ≡ false
        → find_key d i st.skipped ≡ some (message_key C ck i)
    pub fresh : (i : ℕ) → st.n_recv ≤ i → find_key d i st.skipped ≡ none

  try_skipped_held :
      (mk p : Bytes) (e : DrEnvelope) (st : DrState)
      → find_key e.header.dh e.header.n st.skipped ≡ some mk
      → decrypt_with_key C mk e ≡ ok p
      → (rest : List SkippedKey) × (try_skipped C e st
          ≡ (ok (some p), record st { skipped = rest }))
        × IsTaken e.header.dh e.header.n st.skipped rest
  unfolding try_skipped
  try_skipped_held mk p e st h good =
      let (k, rest, taken, same, t) = take_first_lem e.header.dh e.header.n mk st.skipped h in
      (rest, ground arith, t)

  pub try_skipped-none :
      (e : DrEnvelope) (st : DrState)
      → find_key e.header.dh e.header.n st.skipped ≡ none
      → try_skipped C e st ≡ (ok none, st)
  unfolding try_skipped
  try_skipped-none e st h = ground (arith, take_first-none e.header.dh e.header.n st.skipped h)

  pub decrypt-eq-late :
      (mk p new : Bytes) (e : DrEnvelope) (st : DrState)
      → find_key e.header.dh e.header.n st.skipped ≡ some mk
      → decrypt_with_key C mk e ≡ ok p
      → (rest : List SkippedKey) × (decrypt C new e st ≡ (ok p, record st { skipped = rest }))
        × IsTaken e.header.dh e.header.n st.skipped rest
  unfolding decrypt
  decrypt-eq-late mk p new e st h good =
      let (rest, tried, t) = try_skipped_held mk p e st h good in (rest, ground arith, t)

  pub advance_lem :
      (ck new : Bytes) (h : DrHeader) (st : DrState)
      → st.dh_recv ≡ some h.dh
      → st.ck_recv ≡ some (chain_key C ck st.n_recv)
      → st.n_recv ≤ h.n
      → h.n ≤ st.n_recv + max_skip
      → st.n_recv + max_skip + 1 < 2 ^ 64
      → advance C new h st ≡ (
        ok tt,
        record st {
          ck_recv = some (chain_key C ck h.n);
          n_recv = h.n;
          skipped = st.skipped ++ stored_keys C h.dh ck st.n_recv (h.n - st.n_recv);
        },
      )
  unfolding advance skip_message_keys
  advance_lem ck new h st hd hc lo hi b =
      ground
        (arith, skip_loop_lem C h.dh ck (h.n - st.n_recv) h.n st hd hc (omega arith) (omega arith))

  module _ (L : IsLawful C) (d ck : Bytes) where
    pub decrypt_with_key-IsSent :
        (e : DrEnvelope) (p : Bytes)
        → IsSent d ck e p
        → decrypt_with_key C (message_key C ck e.header.n) e ≡ ok p
    unfolding decrypt_with_key
    decrypt_with_key-IsSent e p s =
        ground (arith, L.aead_correct (message_key C ck e.header.n) e.nonce p s.sealed)

    Follows-taken :
        (used : List ℕ) (n : ℕ) (st : DrState) (rest : List SkippedKey)
        → Follows d ck used st
        → IsTaken d n st.skipped rest
        → Follows d ck (n ∷ used) (record st { skipped = rest })
    Follows-taken used n st rest f t = record {
      peer = f.peer;
      chain = f.chain;
      held = λ i lt unused. t.others i (ground arith) ∙ f.held i lt (ground arith);
      fresh = λ i le. t.absent i (f.fresh i le);
    }

    -- A message that was passed over is decrypted with the key that was stored for it.
    pub decrypt_late :
        (used : List ℕ) (new : Bytes) (e : DrEnvelope) (p : Bytes) (st : DrState)
        → Follows d ck used st
        → IsSent d ck e p
        → e.header.n < st.n_recv
        → elem e.header.n used ≡ false
        → let (r, st') = decrypt C new e st in
          (r ≡ ok p) × Follows d ck (e.header.n ∷ used) st' × (st'.n_recv ≡ st.n_recv)
    decrypt_late used new e p st f s lt unused =
        let h =
          subst (λ x. find_key x e.header.n st.skipped ≡ some (message_key C ck e.header.n))
            (sym s.sender) (f.held e.header.n lt unused) in
        let (rest, done, t) =
          decrypt-eq-late (message_key C ck e.header.n) p new e st h
            (decrypt_with_key-IsSent e p s) in
        rw done (
          refl,
          Follows-taken used e.header.n st rest f
              (subst (λ x. IsTaken x e.header.n st.skipped rest) s.sender t),
          refl,
        )

    -- The state after a message that is `next` or further on.
    abbrev pub passed : ℕ → DrState → DrState
    passed n st = record st {
      ck_recv = some (chain_key C ck (n + 1));
      n_recv = n + 1;
      skipped = st.skipped ++ stored_keys C d ck st.n_recv (n - st.n_recv);
    }

    pub decrypt-eq-ahead :
        (new : Bytes) (e : DrEnvelope) (p : Bytes) (st : DrState)
        → find_key e.header.dh e.header.n st.skipped ≡ none
        → st.dh_recv ≡ some e.header.dh
        → st.ck_recv ≡ some (chain_key C ck st.n_recv)
        → IsSent d ck e p
        → st.n_recv ≤ e.header.n
        → e.header.n ≤ st.n_recv + max_skip
        → st.n_recv + max_skip + 1 < 2 ^ 64
        → decrypt C new e st ≡ (ok p, passed e.header.n st)
    unfolding decrypt use_chain message_key
    decrypt-eq-ahead new e p st none_held hd hc s lo hi b = ground (
      arith,
      try_skipped-none e st none_held,
      advance_lem ck new e.header st hd hc lo hi b,
      chain_key-suc C ck e.header.n,
      decrypt_with_key-IsSent e p s,
      s.sender,
    )

    pub Follows-passed :
        (used : List ℕ) (n : ℕ) (st : DrState)
        → Follows d ck used st
        → st.n_recv ≤ n
        → Follows d ck (n ∷ used) (passed n st)
    Follows-passed used n st f lo = record {
      peer = f.peer;
      chain = refl;
      held = λ i lt unused. ground (
        arith,
        find_key-append d i st.skipped (stored_keys C d ck st.n_recv (n - st.n_recv)),
        find_key-stored_keys d ck i st.n_recv (n - st.n_recv),
        f.held i,
        f.fresh i,
      );
      fresh = λ i le. ground (
        arith,
        find_key-append d i st.skipped (stored_keys C d ck st.n_recv (n - st.n_recv)),
        find_key-stored_keys d ck i st.n_recv (n - st.n_recv),
        f.fresh i,
      );
    }

    -- A message that is next, or further on by at most `max_skip`.
    pub decrypt_ahead :
        (used : List ℕ) (new : Bytes) (e : DrEnvelope) (p : Bytes) (st : DrState)
        → Follows d ck used st
        → IsSent d ck e p
        → st.n_recv ≤ e.header.n
        → e.header.n ≤ st.n_recv + max_skip
        → st.n_recv + max_skip + 1 < 2 ^ 64
        → let (r, st') = decrypt C new e st in
          (r ≡ ok p) × Follows d ck (e.header.n ∷ used) st' × (st'.n_recv ≡ e.header.n + 1)
    decrypt_ahead used new e p st f s lo hi b =
        rw
          (decrypt-eq-ahead new e p st
            (subst (λ x. find_key x e.header.n st.skipped ≡ none) (sym s.sender)
              (f.fresh e.header.n lo))
            (f.peer ∙ ap some (sym s.sender)) f.chain s lo hi b)
          (refl, Follows-passed used e.header.n st f lo, refl)
