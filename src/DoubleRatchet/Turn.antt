-- ===== src/DoubleRatchet/Turn.antt =====
-- A ratchet turn in the middle of a session: the keys of the epoch that ends stay readable.
use alter_chat.DoubleRatchet.Epoch.{decrypt-eq-turn}
use alter_chat.Base.Result.{ok}
use alter_chat.Base.Bytes.{Bytes}
use alter_chat.Base.{
  sym, ap, ◌∙◌, subst, ℕ, zero, suc, ◌+◌, ◌-◌, ◌^◌, ◌≤◌, ◌<◌, ◌≡◌, refl, ◌≢◌, false, none, some,
  List, [], ◌∷◌, ◌++◌, arith,
}
use alter_chat.Crypto.{Crypto, IsLawful}
use alter_chat.DoubleRatchet.{
  is_key_of, DrState, DrEnvelope, SkippedKey, max_skip, skip_message_keys, dh_ratchet, decrypt,
}
use alter_chat.DoubleRatchet.Chain.{chain_key, message_key, stored_keys, skip_loop_lem}
use alter_chat.DoubleRatchet.Skipped.{find_key}
use alter_chat.DoubleRatchet.Receive.{
  Follows-passed, decrypt-eq-ahead, passed, decrypt_with_key-IsSent, decrypt-eq-late, elem, IsSent,
  Follows, find_key-append, find_key-stored_keys,
}
use alter_chat.DoubleRatchet.Agreement.{dh_ratchet-IsAhead, turn, IsAhead}

module _ (C : Crypto) where
  -- The keys of an ended epoch: each index below `limit` that is not in `used` has its key stored.
  abbrev pub Holds : Bytes → Bytes → List ℕ → ℕ → List SkippedKey → Type 0
  Holds d ck used limit ks =
      (i : ℕ) → i < limit → elem i used ≡ false → find_key d i ks ≡ some (message_key C ck i)

  find_key-stored_keys_ne :
      (d d' ck : Bytes) (j i count : ℕ) → d ≢ d' → find_key d j (stored_keys C d' ck i count) ≡ none
  unfolding find_key stored_keys is_key_of
  find_key-stored_keys_ne d d' ck j i zero ne = refl
  find_key-stored_keys_ne d d' ck j i (suc count) ne =
      ground (arith, find_key-stored_keys_ne d d' ck j (i + 1) count ne)

  -- The state in which the old chain is left.
  abbrev left : Bytes → Bytes → ℕ → DrState → DrState
  left d ck n st = record st {
    ck_recv = some (chain_key C ck n);
    n_recv = n;
    skipped = st.skipped ++ stored_keys C d ck st.n_recv (n - st.n_recv);
  }

  skip_message_keys_lem :
      (d ck : Bytes) (until : ℕ) (st : DrState)
      → st.dh_recv ≡ some d
      → st.ck_recv ≡ some (chain_key C ck st.n_recv)
      → st.n_recv ≤ until
      → until ≤ st.n_recv + max_skip
      → st.n_recv + max_skip < 2 ^ 64
      → skip_message_keys C until st ≡ (ok tt, left d ck until st)
  unfolding skip_message_keys
  skip_message_keys_lem d ck until st hd hc lo hi b =
      ground
        (arith, skip_loop_lem C d ck (until - st.n_recv) until st hd hc (omega arith) (omega arith))

  Holds-left :
      (d ck : Bytes) (used : List ℕ) (n : ℕ) (st : DrState)
      → Follows C d ck used st
      → Holds d ck used n (left d ck n st).skipped
  Holds-left d ck used n st f i lt unused = ground (
    arith,
    find_key-append d i st.skipped (stored_keys C d ck st.n_recv (n - st.n_recv)),
    find_key-stored_keys C d ck i st.n_recv (n - st.n_recv),
    f.held i,
    f.fresh i,
  )

  module _ (L : IsLawful C) (a st : DrState) (new d₀ ck₀ : Bytes) (used : List ℕ) where
    absent-left :
        (n : ℕ)
        → d₀ ≢ a.dh_send_pub
        → ((i : ℕ) → find_key a.dh_send_pub i st.skipped ≡ none)
        → (i : ℕ) → find_key a.dh_send_pub i (left d₀ ck₀ n st).skipped ≡ none
    absent-left n ne absent i = ground (
      arith,
      find_key-append a.dh_send_pub i st.skipped (stored_keys C d₀ ck₀ st.n_recv (n - st.n_recv)),
      find_key-stored_keys_ne a.dh_send_pub d₀ ck₀ i st.n_recv (n - st.n_recv) (λ e. ne (sym e)),
      absent i,
    )

    Follows-turned :
        (n : ℕ)
        → IsAhead C a st
        → ((i : ℕ) → find_key a.dh_send_pub i (left d₀ ck₀ n st).skipped ≡ none)
        → Follows C a.dh_send_pub
            (turn C a st).1
            []
            (dh_ratchet C new a.dh_send_pub (left d₀ ck₀ n st))
    unfolding dh_ratchet chain_key
    Follows-turned n h absent =
        let h' : IsAhead C a (left d₀ ck₀ n st) = record {
          own = h.own;
          other = h.other;
          root = h.root;
          sends = h.sends;
        } in
        record {
          peer = refl;
          chain = (dh_ratchet-IsAhead C L a (left d₀ ck₀ n st) new h').1;
          held = λ i lt. absurd (omega arith);
          fresh = λ i le. absent i;
        }

    -- The first message of a new epoch is decrypted, the receiver then follows the new chain, and
    -- it holds the key of every message of the old epoch that the sender says it sent.
    pub decrypt-new_epoch :
        (e : DrEnvelope) (p : Bytes)
        → IsAhead C a st
        → Follows C d₀ ck₀ used st
        → d₀ ≢ a.dh_send_pub
        → ((i : ℕ) → find_key a.dh_send_pub i st.skipped ≡ none)
        → IsSent C a.dh_send_pub (turn C a st).1 e p
        → st.n_recv ≤ e.header.pn
        → e.header.pn ≤ st.n_recv + max_skip
        → st.n_recv + max_skip < 2 ^ 64
        → e.header.n ≤ max_skip
        → let (r, st') = decrypt C new e st in
          (r ≡ ok p)
          × Follows C a.dh_send_pub (turn C a st).1 (e.header.n ∷ []) st'
          × Holds d₀ ck₀ used e.header.pn st'.skipped
    unfolding dh_ratchet chain_key
    decrypt-new_epoch e p ahead f ne absent s lo hi b n_hi =
        let old : DrState = left d₀ ck₀ e.header.pn st in
        let t : DrState = dh_ratchet C new a.dh_send_pub old in
        let absent' = absent-left e.header.pn ne absent in
        let f' = Follows-turned e.header.pn ahead absent' in
        let turned : decrypt C new e st ≡ decrypt C new e t =
          subst (λ d. decrypt C new e st ≡ decrypt C new e (dh_ratchet C new d old)) s.sender
            (decrypt-eq-turn C new e st old (rw s.sender (absent e.header.n)) (ground arith)
              (skip_message_keys_lem d₀ ck₀ e.header.pn st f.peer f.chain lo hi b)
              (rw s.sender (absent' e.header.n))) in
        let done : decrypt C new e t
            ≡ (ok p, passed C L a.dh_send_pub (turn C a st).1 e.header.n t) =
          decrypt-eq-ahead C L a.dh_send_pub (turn C a st).1 new e p t
            (rw s.sender (absent' e.header.n)) (ap some (sym s.sender)) f'.chain s (omega arith)
            (omega arith) (omega arith) in
        rw (turned ∙ done) (
          refl,
          Follows-passed C L a.dh_send_pub (turn C a st).1 [] e.header.n t f' (omega arith),
          λ i lt unused. ground (
            arith,
            find_key-append d₀ i old.skipped
                (stored_keys C a.dh_send_pub (turn C a st).1 t.n_recv (e.header.n - t.n_recv)),
            Holds-left d₀ ck₀ used e.header.pn st f i lt unused,
          ),
        )

  -- A message of an ended epoch that comes late is decrypted with its stored key, and nothing but
  -- the store changes.
  pub decrypt_old_epoch :
      IsLawful C
      → (new d ck : Bytes) (used : List ℕ) (limit : ℕ) (e : DrEnvelope) (p : Bytes) (st : DrState)
      → Holds d ck used limit st.skipped
      → IsSent C d ck e p
      → e.header.n < limit
      → elem e.header.n used ≡ false
      → let (r, st') = decrypt C new e st in
        (r ≡ ok p)
        × (st' ≡ record st { skipped = st'.skipped })
        × Holds d ck (e.header.n ∷ used) limit st'.skipped
  decrypt_old_epoch L new d ck used limit e p st held s lt unused =
      let (rest, done, t) =
        decrypt-eq-late C (message_key C ck e.header.n) p new e st
          (rw s.sender (held e.header.n lt unused)) (decrypt_with_key-IsSent C L d ck e p s) in
      rw done (
        refl,
        refl,
        λ i i_lt i_new.
            subst (λ x. find_key x i rest ≡ find_key x i st.skipped) s.sender
              (t.others i (ground arith))
            ∙ held i i_lt (ground arith),
      )
