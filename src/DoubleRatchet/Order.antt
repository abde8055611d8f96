-- ===== src/DoubleRatchet/Order.antt =====
-- A sender that encrypts a list of messages, a receiver that gets them in any order, and the
-- agreement of the two on every plaintext.
use mathlib.Core.Option.{some-injective}
use alter_chat.Base.Result.{Result, ok}
use alter_chat.Base.Bytes.{Bytes}
use alter_chat.Base.{
  ap, ◌∙◌, get_elem?_of_lt, sym, inl, inr, ltb→lt, ltb→le, Bool-cases, length, zero, suc, refl,
  subst, arith, ℕ, ◌+◌, ◌^◌, ◌≤◌, ◌<◌, ◌≡◌, false, none, some, List, [], ◌∷◌, ltb, if◌then◌else◌,
  get_elem?,
}
use alter_chat.Base.Action.{Action, pure, ◌>>=◌, >>=-eq-ok}
use alter_chat.Crypto.{IsLawful, Crypto}
use alter_chat.DoubleRatchet.{DrState, DrEnvelope, max_skip, encrypt, decrypt}
use alter_chat.DoubleRatchet.Chain.{chain_key-suc, chain_key, message_key}
use alter_chat.DoubleRatchet.Receive.{decrypt_ahead, decrypt_late, Follows, elem, IsSent}

-- The indices are pairwise different, and none is in `used`.
abbrev pub AllNew : List ℕ → List ℕ → Type 0
AllNew used [] = Unit
AllNew used (i ∷ is) = (elem i used ≡ false) × AllNew (i ∷ used) is

abbrev pub next_index : ℕ → ℕ → ℕ
next_index next i = if ltb i next then next else i + 1

-- No message runs more than `max_skip` ahead of those that came before it.
abbrev pub InWindow : ℕ → List ℕ → Type 0
InWindow next [] = Unit
InWindow next (i ∷ is) =
    (i ≤ next + max_skip) × (next + max_skip + 1 < 2 ^ 64) × InWindow (next_index next i) is

-- What a delivery of index `i` should give.
abbrev pub plaintext_at : List (Bytes × Bytes) → List (Bytes × ℕ) → List (Result Bytes)
plaintext_at messages [] = []
plaintext_at messages ((fresh, i) ∷ order) = elim (get_elem? messages i) [
  | none ↦ plaintext_at messages order
  | some (nonce, p) ↦ ok p ∷ plaintext_at messages order
]

abbrev pub indices : List (Bytes × ℕ) → List ℕ
indices [] = []
indices ((fresh, i) ∷ order) = i ∷ indices order

abbrev pub InRange : List (Bytes × Bytes) → List ℕ → Type 0
InRange messages [] = Unit
InRange messages (i ∷ is) = (i < length messages) × InRange messages is

module _ (C : Crypto) where
  -- Each message is a nonce and a plaintext.
  unfoldable pub send_all : List (Bytes × Bytes) → Action DrState (List DrEnvelope)
  send_all [] = pure []
  send_all ((nonce, plaintext) ∷ messages) = do
    e ← encrypt C nonce plaintext
    es ← send_all messages
    pure (e ∷ es)

  -- Delivery of the envelopes at the given indices, each with the secret that `decrypt` may draw.
  unfoldable pub deliver : List DrEnvelope → List (Bytes × ℕ) → DrState → List (Result Bytes)
  deliver es [] st = []
  deliver es ((fresh, i) ∷ order) st = elim (get_elem? es i) [
    | none ↦ deliver es order st
    | some e ↦ (decrypt C fresh e st).0 ∷ deliver es order (decrypt C fresh e st).1
  ]

  -- The sending side of the chain that starts at `ck`.
  pub record Sends (d ck : Bytes) (st : DrState) : Type 0 where
    pub sender : st.dh_send_pub ≡ d
    pub chain : st.ck_send ≡ some (chain_key C ck st.n_send)

  pub encrypt-IsSent :
      (d ck nonce p : Bytes) (st : DrState) {e : DrEnvelope} {st' : DrState}
      → Sends d ck st
      → st.n_send + 1 < 2 ^ 64
      → encrypt C nonce p st ≡ (ok e, st')
      → IsSent C d ck e p × (e.header.n ≡ st.n_send) × Sends d ck st' × (st'.n_send ≡ st.n_send + 1)
  unfolding encrypt message_key
  encrypt-IsSent d ck nonce p st s b h = ground (arith, chain_key-suc C ck st.n_send)

  -- The envelopes at each index are those of the messages there, numbered from `n`.
  abbrev pub IsSentAs : Bytes → Bytes → ℕ → List (Bytes × Bytes) → List DrEnvelope → Type 0
  IsSentAs d ck n messages es =
      (i : ℕ) (nonce p : Bytes)
      → get_elem? messages i ≡ some (nonce, p)
      → (e : DrEnvelope) × (get_elem? es i ≡ some e) × IsSent C d ck e p × (e.header.n ≡ n + i)

  IsSentAs-cons :
      (d ck nonce p : Bytes) (n : ℕ) (messages : List (Bytes × Bytes)) (e : DrEnvelope)
      (es : List DrEnvelope)
      → IsSent C d ck e p
      → e.header.n ≡ n
      → IsSentAs d ck (n + 1) messages es
      → IsSentAs d ck n ((nonce, p) ∷ messages) (e ∷ es)
  IsSentAs-cons d ck nonce p n messages e es s en rest zero nonce' p' h =
      (e, refl, subst (λ m. IsSent C d ck e m.1) (some-injective _ _ h) s, omega arith)
  IsSentAs-cons d ck nonce p n messages e es s en rest (suc i) nonce' p' h =
      let (e', at_i, s', en') = rest i nonce' p' h in (e', at_i, s', omega arith)

  pub send_all-cons :
      (nonce p : Bytes) (messages : List (Bytes × Bytes)) (st : DrState) {es : List DrEnvelope}
      {st' : DrState}
      → send_all ((nonce, p) ∷ messages) st ≡ (ok es, st')
      → (e : DrEnvelope) × (rest : List DrEnvelope) × (mid : DrState) × (encrypt C nonce p st
          ≡ (ok e, mid))
        × (send_all messages mid ≡ (ok rest, st'))
        × (es ≡ e ∷ rest)
  unfolding send_all
  send_all-cons nonce p messages st h =
      let (e, mid, sent, h') =
        >>=-eq-ok (encrypt C nonce p) (λ e. send_all messages >>= λ es. pure (e ∷ es)) st h in
      let (rest, st'', more, done) =
        >>=-eq-ok (send_all messages) (λ es. pure {S = DrState} (e ∷ es)) mid h' in
      (e, rest, mid, sent, ground arith, ground arith)

  -- A sender of the chain numbers its messages in turn and seals each with the key of its number.
  pub send_all-IsSentAs :
      (d ck : Bytes) (messages : List (Bytes × Bytes)) (st : DrState) {es : List DrEnvelope}
      {st' : DrState}
      → Sends d ck st
      → st.n_send + length messages < 2 ^ 64
      → send_all messages st ≡ (ok es, st')
      → IsSentAs d ck st.n_send messages es
  send_all-IsSentAs d ck [] st s b h = λ i nonce p at_i. cc
  send_all-IsSentAs d ck ((nonce, p) ∷ messages) st {es} s b h =
      let (e, rest, mid, sent, more, same) = send_all-cons nonce p messages st h in
      let (is_sent, num, s', next) = encrypt-IsSent d ck nonce p st s (omega arith) sent in
      subst (λ x. IsSentAs d ck st.n_send ((nonce, p) ∷ messages) x) (sym same)
        (IsSentAs-cons d ck nonce p st.n_send messages e rest is_sent num (
          subst (λ n. IsSentAs d ck n messages rest) next
            (send_all-IsSentAs d ck messages mid s' (omega arith) more)))

  module _ (L : IsLawful C) (d ck : Bytes) where
    decrypt_any :
        (used : List ℕ) (new : Bytes) (e : DrEnvelope) (p : Bytes) (st : DrState)
        → Follows C d ck used st
        → IsSent C d ck e p
        → elem e.header.n used ≡ false
        → e.header.n ≤ st.n_recv + max_skip
        → st.n_recv + max_skip + 1 < 2 ^ 64
        → let (r, st') = decrypt C new e st in
          (r ≡ ok p)
          × Follows C d ck (e.header.n ∷ used) st'
          × (st'.n_recv ≡ next_index st.n_recv e.header.n)
    decrypt_any used new e p st f s unused hi b = elim (Bool-cases (ltb e.header.n st.n_recv)) [
      | inl late ↦
          let (r, f', n) = decrypt_late C L d ck used new e p st f s (ltb→lt _ _ late) unused in
          (r, f', ground arith)
      | inr ahead ↦
          let (r, f', n) = decrypt_ahead C L d ck used new e p st f s (ltb→le _ _ ahead) hi b in
          (r, f', ground arith)
    ]

    pub deliver_any_order :
        (messages : List (Bytes × Bytes)) (es : List DrEnvelope)
        → IsSentAs d ck 0 messages es
        → (used : List ℕ) (order : List (Bytes × ℕ)) (st : DrState) → Follows C d ck used st
        → InRange messages (indices order)
        → AllNew used (indices order)
        → InWindow st.n_recv (indices order)
        → deliver es order st ≡ plaintext_at messages order
    unfolding deliver
    deliver_any_order messages es sent used [] st f r new w = refl
    deliver_any_order messages es sent used ((fresh, i) ∷ order) st f r new w =
        let (m, at_i) = get_elem?_of_lt messages i r.0 in
        let (e, at_e, s, num) = sent i m.0 m.1 at_i in
        let n_is : e.header.n ≡ i = omega (arith, num) in
        let (res, f', n) =
          decrypt_any used fresh e m.1 st f s (subst (λ x. elem x used ≡ false) (sym n_is) new.0)
            (omega arith) (omega arith) in
        let rest =
          deliver_any_order messages es sent (i ∷ used) order (decrypt C fresh e st).1
            (subst (λ x. Follows C d ck (x ∷ used) (decrypt C fresh e st).1) n_is f') r.1 new.1
            (subst (λ x. InWindow x (indices order)) (ap (next_index st.n_recv) (sym n_is) ∙ sym n)
              w.2) in
        ground (arith, rest)
