-- ===== src/DoubleRatchet/Bounds.antt =====
-- How much one call of `decrypt` may store, whatever message it is given.
use alter_chat.Base.Bytes.{Bytes}
use alter_chat.Base.{
  ◌-◌, ◌*◌, refl, position, ℕ, zero, suc, ◌+◌, ◌≤◌, ◌≡◌, inl, inr, some, List, [], ◌∷◌, arith,
  Option-cases, length, length-append, remove,
}
use alter_chat.Crypto.{Crypto}
use alter_chat.DoubleRatchet.{
  DrEnvelope, max_skip, DrHeader, decrypt, use_chain, dh_ratchet, advance, try_skipped,
  skip_message_keys, skip_loop, is_key_of, DrState, skip_one,
}

abbrev pub store_size : DrState → ℕ
store_size st = length st.skipped

length-remove {ℓ} :
    {A : Type ℓ} (xs : List A) (i : ℕ) (a : A) (rest : List A)
    → remove xs i ≡ some (a, rest)
    → length rest ≤ length xs
length-remove [] i a rest h = absurd (ground arith)
length-remove (x ∷ xs) zero a rest h = ground arith
length-remove (x ∷ xs) (suc i) a rest h = elim (Option-cases (remove xs i)) [
  | inl missing ↦ absurd (ground arith)
  | inr (r, e) ↦ ground (arith, length-remove xs i r.0 r.1 e)
]

module _ (C : Crypto) where
  skip_one-size : (st : DrState) → store_size (skip_one C st) ≤ store_size st + 1
  unfolding skip_one
  skip_one-size st = elim (Option-cases st.ck_recv) [
    | inl missing ↦ ground arith
    | inr (ck, e) ↦ grind (arith, length-append)
  ]

  skip_loop-size :
      (fuel until : ℕ) (st : DrState)
      → store_size (skip_loop C fuel until st) ≤ store_size st + fuel
  unfolding skip_loop
  skip_loop-size zero until st = omega arith
  skip_loop-size (suc fuel) until st =
      ground (arith, skip_loop-size fuel until (skip_one C st), skip_one-size st)

  skip_message_keys-size :
      (until : ℕ) (st : DrState)
      → store_size (skip_message_keys C until st).1 ≤ store_size st + max_skip
  unfolding skip_message_keys
  skip_message_keys-size until st = ground (arith, skip_loop-size (until - st.n_recv) until st)

  dh_ratchet-size :
      (new d : Bytes) (st : DrState) → store_size (dh_ratchet C new d st) ≡ store_size st
  unfolding dh_ratchet
  dh_ratchet-size new d st = refl

  advance-size :
      (new : Bytes) (h : DrHeader) (st : DrState)
      → store_size (advance C new h st).1 ≤ store_size st + 2 * max_skip
  unfolding advance
  advance-size new h st = ground (
    arith,
    skip_message_keys-size h.n st,
    skip_message_keys-size h.pn st,
    skip_message_keys-size h.n (dh_ratchet C new h.dh (skip_message_keys C h.pn st).1),
    dh_ratchet-size new h.dh (skip_message_keys C h.pn st).1,
  )

  use_chain-size : (e : DrEnvelope) (st : DrState) → store_size (use_chain C e st).1 ≡ store_size st
  unfolding use_chain
  use_chain-size e st = ground arith

  try_skipped-size :
      (e : DrEnvelope) (st : DrState) → store_size (try_skipped C e st).1 ≤ store_size st
  unfolding try_skipped
  try_skipped-size e st =
      elim (Option-cases (position (is_key_of e.header.dh e.header.n) st.skipped)) [
        | inl missing ↦ ground arith
        | inr (idx, at_idx) ↦ elim (Option-cases (remove st.skipped idx)) [
          | inl missing ↦ ground arith
          | inr (r, e') ↦ ground (arith, length-remove st.skipped idx r.0 r.1 e')
        ]
      ]

  -- Whatever message it is given, and whether it succeeds or fails, one call of `decrypt` adds at
  -- most twice `max_skip` keys to the store.
  pub decrypt-size :
      (new : Bytes) (e : DrEnvelope) (st : DrState)
      → store_size (decrypt C new e st).1 ≤ store_size st + 2 * max_skip
  unfolding decrypt
  decrypt-size new e st = ground (
    arith,
    try_skipped-size e st,
    advance-size new e.header (try_skipped C e st).1,
    use_chain-size e (advance C new e.header (try_skipped C e st).1).1,
  )
