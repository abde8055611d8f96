-- ===== src/DoubleRatchet/Chain.antt =====
-- The symmetric chain that `kdf_ck` unrolls, as a function of the index, and the loop of
-- `skip_message_keys` in terms of it.
use native.Mathlib.Numerals.{add-one}
use alter_chat.Base.Bytes.{Bytes}
use alter_chat.Crypto.{Crypto}
use alter_chat.DoubleRatchet.{DrState, SkippedKey, kdf_ck, skip_one, skip_loop}
use alter_chat.Base.{
  append_assoc, append-nil, arith, ◌+◌, ◌^◌, ◌<◌, ◌∷◌, ◌++◌, some, [], ℕ, zero, suc, List, ◌≡◌,
}

module _ (C : Crypto) where
  -- The chain key after `i` messages, and the key of message `i`.
  unfoldable pub chain_key : Bytes → ℕ → Bytes
  chain_key ck zero = ck
  chain_key ck (suc i) = (kdf_ck C (chain_key ck i)).0

  unfoldable pub message_key : Bytes → ℕ → Bytes
  message_key ck i = (kdf_ck C (chain_key ck i)).1

  pub chain_key-suc : (ck : Bytes) (i : ℕ) → chain_key ck (i + 1) ≡ (kdf_ck C (chain_key ck i)).0
  unfolding chain_key
  chain_key-suc ck i = rw add-one

  -- What the loop stores: the keys of `count` messages from index `i` on.
  unfoldable pub stored_keys : Bytes → Bytes → ℕ → ℕ → List SkippedKey
  stored_keys d ck i zero = []
  stored_keys d ck i (suc count) =
      record { dh_pub = d; n = i; mk = message_key ck i } ∷ stored_keys d ck (i + 1) count

  skip_one_lem :
      (d ck : Bytes) (st : DrState)
      → st.dh_recv ≡ some d
      → st.ck_recv ≡ some (chain_key ck st.n_recv)
      → st.n_recv + 1 < 2 ^ 64
      → skip_one C st ≡ record st {
        ck_recv = some (chain_key ck (st.n_recv + 1));
        n_recv = st.n_recv + 1;
        skipped =
            st.skipped
            ++ (record { dh_pub = d; n = st.n_recv; mk = message_key ck st.n_recv } ∷ []);
      }
  unfolding skip_one message_key
  skip_one_lem d ck st hd hc b = ground (arith, chain_key-suc ck st.n_recv)

  -- The loop brings the counter to `until` and stores the key of each message that it passes.
  pub skip_loop_lem :
      (d ck : Bytes) (fuel until : ℕ) (st : DrState)
      → st.dh_recv ≡ some d
      → st.ck_recv ≡ some (chain_key ck st.n_recv)
      → st.n_recv + fuel ≡ until
      → until < 2 ^ 64
      → skip_loop C fuel until st ≡ record st {
        ck_recv = some (chain_key ck until);
        n_recv = until;
        skipped = st.skipped ++ stored_keys d ck st.n_recv fuel;
      }
  unfolding skip_loop stored_keys
  skip_loop_lem d ck zero until st hd hc e b = ground (arith, append-nil st.skipped)
  skip_loop_lem d ck (suc fuel) until st hd hc e b = ground (
    arith,
    skip_one_lem d ck st hd hc (omega arith),
    skip_loop_lem d ck fuel until (skip_one C st),
    append_assoc st.skipped
        (record { dh_pub = d; n = st.n_recv; mk = message_key ck st.n_recv } ∷ [])
        (stored_keys d ck (st.n_recv + 1) fuel),
  )
