-- ===== src/DoubleRatchet/Epoch.antt =====
-- A change of epoch: the first message under a new ratchet key, for a receiver that has not yet
-- received anything, and for one that followed an earlier chain.
use alter_chat.Base.Result.{ok}
use alter_chat.Base.Bytes.{Bytes}
use alter_chat.Base.{
  sym, ◌^◌, ℕ, zero, suc, ◌≤◌, ◌<◌, ◌≡◌, refl, ◌∙◌, subst, true, none, some, List, [], ◌∷◌, arith,
  length, get_elem?, get_elem?_of_lt,
}
use alter_chat.Crypto.{Crypto, IsLawful}
use alter_chat.DoubleRatchet.{
  init_alice, DrState, DrEnvelope, max_skip, need_dh_ratchet, skip_message_keys, dh_ratchet,
  init_bob, encrypt, decrypt, advance,
}
use alter_chat.DoubleRatchet.Chain.{chain_key}
use alter_chat.DoubleRatchet.Skipped.{find_key}
use alter_chat.DoubleRatchet.Receive.{Follows, try_skipped-none}
use alter_chat.DoubleRatchet.Order.{
  deliver_any_order, send_all-IsSentAs, plaintext_at, InWindow, AllNew, indices, InRange, send_all,
  send_all-cons, deliver, IsSentAs,
}
use alter_chat.DoubleRatchet.Agreement.{init-IsAhead, turn, IsAhead, dh_ratchet-IsAhead}

module _ (C : Crypto) where
  -- `decrypt` with a ratchet turn is `decrypt` after the turn.
  pub decrypt-eq-turn :
      (new : Bytes) (e : DrEnvelope) (st old : DrState)
      → find_key e.header.dh e.header.n st.skipped ≡ none
      → need_dh_ratchet st e.header ≡ true
      → skip_message_keys C e.header.pn st ≡ (ok tt, old)
      → find_key e.header.dh e.header.n old.skipped ≡ none
      → decrypt C new e st ≡ decrypt C new e (dh_ratchet C new e.header.dh old)
  unfolding decrypt advance dh_ratchet
  decrypt-eq-turn new e st old a n s b =
      ground (
        arith,
        try_skipped-none C e st a,
        try_skipped-none C e (dh_ratchet C new e.header.dh old) b,
      )

  encrypt-pn :
      (nonce p : Bytes) (st : DrState) {e : DrEnvelope} {st' : DrState}
      → encrypt C nonce p st ≡ (ok e, st')
      → (e.header.pn ≡ st.pn) × (st'.pn ≡ st.pn)
  unfolding encrypt
  encrypt-pn nonce p st h = ground arith

  send_all-pn :
      (messages : List (Bytes × Bytes)) (st : DrState) {es : List DrEnvelope} {st' : DrState}
      → send_all C messages st ≡ (ok es, st')
      → (i : ℕ) (e : DrEnvelope) → get_elem? es i ≡ some e
      → e.header.pn ≡ st.pn
  unfolding send_all
  send_all-pn [] st h i e at_i = absurd (ground arith)
  send_all-pn ((nonce, p) ∷ messages) st h zero e at_i =
      let (e', rest, mid, sent, more, same) = send_all-cons C nonce p messages st h in
      let (pn, _) = encrypt-pn nonce p st sent in ground arith
  send_all-pn ((nonce, p) ∷ messages) st {es} h (suc i) e at_i =
      let (e', rest, mid, sent, more, same) = send_all-cons C nonce p messages st h in
      let (_, pn) = encrypt-pn nonce p st sent in
      send_all-pn messages mid more i e (subst (λ x. get_elem? x (suc i) ≡ some e) same at_i) ∙ pn

  -- A party that has received nothing yet.
  record IsNew (st : DrState) : Type 0 where
    peer : st.dh_recv ≡ none
    chain : st.ck_recv ≡ none
    counter : st.n_recv ≡ 0
    stored : st.skipped ≡ []

  init_bob-IsNew : (sk secret public : Bytes) → IsNew (init_bob C sk secret public)
  unfolding init_bob
  init_bob-IsNew sk secret public = ground arith

  skip_message_keys-IsNew :
      (st : DrState) (until : ℕ)
      → IsNew st
      → until ≤ max_skip
      → skip_message_keys C until st ≡ (ok tt, st)
  unfolding skip_message_keys
  skip_message_keys-IsNew st until n h = ground arith

  module _ (L : IsLawful C) (a b : DrState) (fresh : Bytes) where
    -- After its turn a new party follows the chain of the party ahead.
    Follows-turn :
        IsAhead C a b
        → IsNew b
        → Follows C a.dh_send_pub (turn C a b).1 [] (dh_ratchet C fresh a.dh_send_pub b)
          × ((dh_ratchet C fresh a.dh_send_pub b).n_recv ≡ 0)
    unfolding dh_ratchet chain_key find_key
    Follows-turn h n =
        let (_, ck, _) = dh_ratchet-IsAhead C L a b fresh h in
        (
          record {
            peer = refl;
            chain = ck;
            held = λ i lt. absurd (omega arith);
            fresh = λ i le. rw (n.stored, find_key) refl;
          },
          refl,
        )

    deliver-turn :
        (messages : List (Bytes × Bytes)) (es : List DrEnvelope) (i : ℕ) (order : List (Bytes × ℕ))
        → IsNew b
        → IsSentAs C a.dh_send_pub (turn C a b).1 0 messages es
        → ((e : DrEnvelope) → get_elem? es i ≡ some e → e.header.pn ≤ max_skip)
        → i < length messages
        → deliver C es ((fresh, i) ∷ order) b
          ≡ deliver C es ((fresh, i) ∷ order) (dh_ratchet C fresh a.dh_send_pub b)
    unfolding deliver find_key
    deliver-turn messages es i order n sent pn lt =
        let (m, at_m) = get_elem?_of_lt messages i lt in
        let (e, at_e, s, _) = sent i m.0 m.1 at_m in
        let same : decrypt C fresh e b ≡ decrypt C fresh e (dh_ratchet C fresh a.dh_send_pub b) =
          subst (λ d. decrypt C fresh e b ≡ decrypt C fresh e (dh_ratchet C fresh d b)) s.sender
            (decrypt-eq-turn fresh e b b (rw (n.stored, find_key) refl) (rw n.peer refl)
              (skip_message_keys-IsNew b e.header.pn n (pn e at_e))
              (rw (n.stored, find_key) refl)) in
        ground arith

  -- Whatever Alice sends on her first chain, Bob reads in any order of arrival: each message gives
  -- its own plaintext, whether it comes early, in turn or late.
  pub session_any_order :
      IsLawful C
      → (alice_secret sk bob_secret : Bytes) (messages : List (Bytes × Bytes))
        (order : List (Bytes × ℕ))
      → {es : List DrEnvelope} {alice' : DrState} → length messages < 2 ^ 64
      → send_all C messages (init_alice C alice_secret sk (C.public_key bob_secret))
        ≡ (ok es, alice')
      → InRange messages (indices order)
      → AllNew [] (indices order)
      → InWindow 0 (indices order)
      → deliver C es order (init_bob C sk bob_secret (C.public_key bob_secret))
        ≡ plaintext_at messages order
  unfolding init_alice deliver
  session_any_order L alice_secret sk bob_secret messages [] room sent r new w = refl
  session_any_order L alice_secret sk bob_secret messages ((fresh, i) ∷ order) room sent r new w =
      let public = C.public_key bob_secret in
      let alice = init_alice C alice_secret sk public in
      let bob = init_bob C sk bob_secret public in
      let ahead = init-IsAhead C alice_secret sk bob_secret in
      let sent_as =
        send_all-IsSentAs C alice.dh_send_pub (turn C alice bob).1 messages alice ahead.sends
          (omega arith) sent in
      let (f, zero_recv) =
        Follows-turn L alice bob fresh ahead (init_bob-IsNew sk bob_secret public) in
      deliver-turn L alice bob fresh messages _ i order (init_bob-IsNew sk bob_secret public)
        sent_as (λ e at_i. rw (send_all-pn messages alice sent i e at_i) (omega arith)) r.0
      ∙ deliver_any_order C L alice.dh_send_pub (turn C alice bob).1 messages _ sent_as []
          ((fresh, i) ∷ order) _ f r new
          (subst (λ x. InWindow x (i ∷ indices order)) (sym zero_recv) w)
