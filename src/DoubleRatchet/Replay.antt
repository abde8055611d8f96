-- ===== src/DoubleRatchet/Replay.antt =====
-- What `decrypt` does with messages that are not genuine and new: too far ahead, replayed, forged.
use alter_chat.Base.Result.{err}
use alter_chat.Base.Bytes.{Bytes}
use alter_chat.Base.{
  ◌*◌, refl, sym, ap, ◌∙◌, ℕ, ◌+◌, ◌-◌, ◌^◌, ◌≤◌, ◌<◌, ◌≡◌, none, some, List, ◌++◌, arith,
}
use alter_chat.Crypto.{Crypto}
use alter_chat.DoubleRatchet.{
  DrState, DrEnvelope, max_skip, decrypt_with_key, skip_loop, skip_message_keys, advance, use_chain,
  decrypt,
}
use alter_chat.DoubleRatchet.Chain.{chain_key, message_key, chain_key-suc, stored_keys}
use alter_chat.DoubleRatchet.Skipped.{find_key}
use alter_chat.DoubleRatchet.Receive.{
  find_key-stored_keys, find_key-append, advance_lem, Follows, try_skipped-none,
}

module _ (C : Crypto) where
  -- A message of the current epoch that runs more than `max_skip` ahead is refused, and the state
  -- is left as it was.
  pub decrypt_too_far :
      (new : Bytes) (e : DrEnvelope) (st : DrState)
      → st.dh_recv ≡ some e.header.dh
      → find_key e.header.dh e.header.n st.skipped ≡ none
      → st.n_recv + max_skip < 2 ^ 64
      → st.n_recv + max_skip < e.header.n
      → decrypt C new e st ≡ (err "Too many skipped messages", st)
  unfolding decrypt advance skip_message_keys
  decrypt_too_far new e st hd none_held b far = ground (arith, try_skipped-none C e st none_held)

  -- The state after a message of index `n` of the chain, whether it was genuine or not.
  abbrev pub after : Bytes → Bytes → ℕ → DrState → DrState
  after d ck n st = record st {
    ck_recv = some (chain_key C ck (n + 1));
    n_recv = n + 1;
    skipped = st.skipped ++ stored_keys C d ck st.n_recv (n - st.n_recv);
  }

  use_chain_lem :
      (ck : Bytes) (e : DrEnvelope) (st : DrState)
      → st.ck_recv ≡ some (chain_key C ck st.n_recv)
      → st.n_recv + 1 < 2 ^ 64
      → use_chain C e st ≡ (
        decrypt_with_key C (message_key C ck st.n_recv) e,
        record st { ck_recv = some (chain_key C ck (st.n_recv + 1)); n_recv = st.n_recv + 1 },
      )
  unfolding use_chain message_key
  use_chain_lem ck e st hc b = ground (arith, chain_key-suc C ck st.n_recv)

  -- A message whose key is spent is tried with the key of the next message, which it uses up.
  decrypt-eq-spent :
      (ck new : Bytes) (e : DrEnvelope) (st : DrState)
      → st.dh_recv ≡ some e.header.dh
      → st.ck_recv ≡ some (chain_key C ck st.n_recv)
      → e.header.n ≤ st.n_recv
      → find_key e.header.dh e.header.n st.skipped ≡ none
      → st.n_recv + max_skip < 2 ^ 64
      → decrypt C new e st ≡ (
        decrypt_with_key C (message_key C ck st.n_recv) e,
        record st { ck_recv = some (chain_key C ck (st.n_recv + 1)); n_recv = st.n_recv + 1 },
      )
  unfolding decrypt advance skip_message_keys skip_loop
  decrypt-eq-spent ck new e st hd hc le none_held b =
      ground (arith, try_skipped-none C e st none_held, use_chain_lem ck e st hc (omega arith))

  decrypt-eq-after :
      (d ck : Bytes) (used : List ℕ) (new : Bytes) (e : DrEnvelope) (st : DrState)
      → Follows C d ck used st
      → e.header.dh ≡ d
      → st.n_recv ≤ e.header.n
      → e.header.n ≤ st.n_recv + max_skip
      → st.n_recv + max_skip + 1 < 2 ^ 64
      → decrypt C new e st
        ≡ (decrypt_with_key C (message_key C ck e.header.n) e, after e.header.dh ck e.header.n st)
  unfolding decrypt use_chain message_key
  decrypt-eq-after d ck used new e st f hd lo hi b = ground (
    arith,
    try_skipped-none C e st (rw hd (f.fresh e.header.n lo)),
    advance_lem C ck new e.header st (f.peer ∙ ap some (sym hd)) f.chain lo hi b,
    chain_key-suc C ck e.header.n,
  )

  -- A second copy of a message that was read makes the receiver lose the next message: the
  -- genuine message whose turn it is is tried with the key of the one behind it.
  pub replay_loses_next :
      (d ck new new' : Bytes) (used : List ℕ) (copy genuine : DrEnvelope) (st : DrState)
      → Follows C d ck used st
      → copy.header.dh ≡ d
      → copy.header.n < st.n_recv
      → find_key d copy.header.n st.skipped ≡ none
      → genuine.header.dh ≡ d
      → genuine.header.n ≡ st.n_recv
      → st.n_recv + max_skip + 1 < 2 ^ 64
      → (decrypt C new' genuine (decrypt C new copy st).1).0
        ≡ decrypt_with_key C (message_key C ck (st.n_recv + 1)) genuine
  replay_loses_next d ck new new' used copy genuine st f cd lt spent gd gn b =
      rw
        (decrypt-eq-spent ck new copy st (f.peer ∙ ap some (sym cd)) f.chain (omega arith)
          (rw cd spent) (omega arith))
        (ap (λ r. r.0)
          (decrypt-eq-spent ck new' genuine _ (f.peer ∙ ap some (sym gd)) refl (omega arith)
            (rw (gd, gn) (f.fresh st.n_recv (omega arith))) (omega arith)))

  burnt :
      (d ck : Bytes) (used : List ℕ) (forged genuine : DrEnvelope) (st : DrState)
      → Follows C d ck used st
      → forged.header.dh ≡ d
      → st.n_recv ≤ forged.header.n
      → genuine.header.dh ≡ d
      → genuine.header.n ≡ forged.header.n
      → find_key genuine.header.dh genuine.header.n
          (after forged.header.dh ck forged.header.n st).skipped
        ≡ none
  burnt d ck used forged genuine st f fd lo gd gn =
      rw (gd, gn, fd)
        (ground (
          arith,
          find_key-append d forged.header.n st.skipped
              (stored_keys C d ck st.n_recv (forged.header.n - st.n_recv)),
          find_key-stored_keys C d ck forged.header.n st.n_recv (forged.header.n - st.n_recv),
          f.fresh forged.header.n lo,
        ))

  -- A message that takes an index of the window, genuine or forged, uses up the key of that index:
  -- the genuine message of that index is then tried with the key of the next.
  pub forgery_burns_key :
      (d ck new new' : Bytes) (used : List ℕ) (forged genuine : DrEnvelope) (st : DrState)
      → Follows C d ck used st
      → forged.header.dh ≡ d
      → st.n_recv ≤ forged.header.n
      → forged.header.n ≤ st.n_recv + max_skip
      → st.n_recv + 2 * max_skip + 2 < 2 ^ 64
      → genuine.header.dh ≡ d
      → genuine.header.n ≡ forged.header.n
      → (decrypt C new' genuine (decrypt C new forged st).1).0
        ≡ decrypt_with_key C (message_key C ck (forged.header.n + 1)) genuine
  forgery_burns_key d ck new new' used forged genuine st f fd lo hi b gd gn =
      rw (decrypt-eq-after d ck used new forged st f fd lo hi (omega arith)) (
        ap (λ r. r.0)
          (decrypt-eq-spent ck new' genuine _ (f.peer ∙ ap some (sym gd)) refl (omega arith)
            (burnt d ck used forged genuine st f fd lo gd gn) (omega arith)))
