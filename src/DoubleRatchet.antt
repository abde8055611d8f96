-- ===== src/DoubleRatchet.antt =====
-- The Double Ratchet session (alterchat-core/src/double_ratchet.rs): its state and messages, and
-- each of its functions. Random values (a fresh secret, a nonce) are arguments. Counters are `u64`
-- with the wrap-around of a release build.
pub mod Chain
pub mod Skipped
pub mod Receive
pub mod Order
pub mod Agreement
pub mod Epoch
pub mod Turn
pub mod Bounds
pub mod Replay
mod Tests
use alter_chat.Base.{
  remove, position, ℕ, zero, suc, ◌+◌, ◌-◌, Bool, true, false, ◌&&◌, Option, none, some, List, [],
  ◌∷◌, ◌++◌, ltb, eqb, u64, if◌then◌else◌, replicate, not,
}
use alter_chat.Base.Bytes.{Bytes}
use alter_chat.Base.Equality.{string_eq, ◌==◌, bytes_eq}
use alter_chat.Base.Result.{Result, ok, err, ok_or, map_ok}
use alter_chat.Base.Action.{Action, pure, lift, gets, modify, ◌>>=◌, ◌>>◌}
use alter_chat.Crypto.{Crypto}
use mathlib.Core.Option

-- `MAX_SKIP`
abbrev pub max_skip : ℕ
max_skip = 1000

pub record SkippedKey : Type 0 where
  pub dh_pub : Bytes
  pub n : ℕ
  pub mk : Bytes

pub record DrState : Type 0 where
  pub dh_send : Bytes
  pub dh_send_pub : Bytes
  pub dh_recv : Option Bytes
  pub root_key : Bytes
  pub ck_send : Option Bytes
  pub ck_recv : Option Bytes
  pub n_send : ℕ
  pub n_recv : ℕ
  pub pn : ℕ
  pub skipped : List SkippedKey

pub record DrHeader : Type 0 where
  pub dh : Bytes
  pub pn : ℕ
  pub n : ℕ

pub record DrEnvelope : Type 0 where
  pub header : DrHeader
  pub nonce : Bytes
  pub ciphertext : Bytes

-- The test that `try_skipped` looks for a stored key with.
unfoldable pub is_key_of : Bytes → ℕ → SkippedKey → Bool
is_key_of dh n k = k.dh_pub == dh && eqb k.n n

abbrev pub need_dh_ratchet : DrState → DrHeader → Bool
need_dh_ratchet st h = elim st.dh_recv [ none ↦ true | some r ↦ not (r == h.dh) ]

-- "root", "chain" and "msg", in ASCII.
abbrev label_root : Bytes
label_root = b'r' ∷ b'o' ∷ b'o' ∷ b't' ∷ []

abbrev label_chain : Bytes
label_chain = b'c' ∷ b'h' ∷ b'a' ∷ b'i' ∷ b'n' ∷ []

abbrev label_msg : Bytes
label_msg = b'm' ∷ b's' ∷ b'g' ∷ []

module _ (C : Crypto) where
  unfoldable pub kdf_rk : Bytes → Bytes → Bytes × Bytes
  kdf_rk rk dh_out = (C.hkdf (some rk) dh_out label_root, C.hkdf (some rk) dh_out label_chain)

  unfoldable pub kdf_ck : Bytes → Bytes × Bytes
  kdf_ck ck = (C.hkdf (some ck) [] label_chain, C.hkdf (some ck) [] label_msg)

  -- `init_alice`, with the secret that it draws.
  unfoldable pub init_alice : Bytes → Bytes → Bytes → DrState
  init_alice fresh sk bob_dh_pub =
      let (root_key, ck_send) = kdf_rk sk (C.diffie_hellman fresh bob_dh_pub) in
      record {
        dh_send = fresh;
        dh_send_pub = C.public_key fresh;
        dh_recv = some bob_dh_pub;
        root_key = root_key;
        ck_send = some ck_send;
        ck_recv = none;
        n_send = 0;
        n_recv = 0;
        pn = 0;
        skipped = [];
      }

  unfoldable pub init_bob : Bytes → Bytes → Bytes → DrState
  init_bob sk bob_dh_secret bob_dh_pub = record {
    dh_send = bob_dh_secret;
    dh_send_pub = bob_dh_pub;
    dh_recv = none;
    root_key = sk;
    ck_send = none;
    ck_recv = none;
    n_send = 0;
    n_recv = 0;
    pn = 0;
    skipped = [];
  }

  -- The chain key moves on before the cipher is called, the counter after it.
  unfoldable pub encrypt : Bytes → Bytes → Action DrState DrEnvelope
  encrypt nonce plaintext = do
    st ← gets (λ st. st)
    ck ← lift (ok_or st.ck_send "No send chain key")
    modify (λ st. record st { ck_send = some (kdf_ck ck).0 })
    ciphertext ← lift (ok_or (C.aead_encrypt (kdf_ck ck).1 nonce plaintext) "Encryption failed")
    modify (λ st. record st { n_send = u64 (st.n_send + 1) })
    pure (record {
      header = record { dh = st.dh_send_pub; pn = st.pn; n = st.n_send };
      nonce = nonce;
      ciphertext = ciphertext;
    })

  unfoldable pub decrypt_with_key : Bytes → DrEnvelope → Result Bytes
  decrypt_with_key mk e = ok_or (C.aead_decrypt mk e.nonce e.ciphertext) "Decryption failed"

  -- A stored key is taken out before it is tried.
  unfoldable pub try_skipped : DrEnvelope → Action DrState (Option Bytes)
  try_skipped e st = elim (position (is_key_of e.header.dh e.header.n) st.skipped) [
    | none ↦ (ok none, st)
    | some idx ↦ elim (remove st.skipped idx) [
      | none ↦ (ok none, st)
      | some (k, rest) ↦ (map_ok some (decrypt_with_key k.mk e), record st { skipped = rest })
    ]
  ]

  -- One round of the loop of `skip_message_keys`; `ck_recv` is known to be there.
  unfoldable pub skip_one : DrState → DrState
  skip_one st = elim st.ck_recv [
    | none ↦ st
    | some ck ↦ record st {
      ck_recv = some (kdf_ck ck).0;
      skipped =
          st.skipped
          ++ (record {
            dh_pub = Option.get_or st.dh_recv (replicate 32 0);
            n = st.n_recv;
            mk = (kdf_ck ck).1;
          }
              ∷ []);
      n_recv = u64 (st.n_recv + 1);
    }
  ]

  -- `while state.n_recv < until`, with fuel.
  unfoldable pub skip_loop : ℕ → ℕ → DrState → DrState
  skip_loop zero until st = st
  skip_loop (suc fuel) until st = elim (ltb st.n_recv until) [
    | true ↦ skip_loop fuel until (skip_one st)
    | false ↦ st
  ]

  unfoldable pub skip_message_keys : ℕ → Action DrState (Unit {0})
  skip_message_keys until st =
      if ltb (u64 (st.n_recv + max_skip)) until
      then (err "Too many skipped messages", st)
      else elim st.ck_recv [
        | none ↦ (ok tt, st)
        | some _ ↦ (ok tt, skip_loop (until - st.n_recv) until st)
      ]

  -- `dh_ratchet`, with the secret that it draws.
  unfoldable pub dh_ratchet : Bytes → Bytes → DrState → DrState
  dh_ratchet fresh header_dh st =
      let (rk, ck_recv) = kdf_rk st.root_key (C.diffie_hellman st.dh_send header_dh) in
      let (rk2, ck_send) = kdf_rk rk (C.diffie_hellman fresh header_dh) in
      record {
        dh_send = fresh;
        dh_send_pub = C.public_key fresh;
        dh_recv = some header_dh;
        root_key = rk2;
        ck_send = some ck_send;
        ck_recv = some ck_recv;
        n_send = 0;
        n_recv = 0;
        pn = st.n_send;
        skipped = st.skipped;
      }

  -- The part of `decrypt` that brings the receiving chain to the header's place.
  unfoldable pub advance : Bytes → DrHeader → Action DrState (Unit {0})
  advance fresh h st =
      (if need_dh_ratchet st h
          then skip_message_keys h.pn >> modify (dh_ratchet fresh h.dh) >> skip_message_keys h.n
          else skip_message_keys h.n)
        st

  -- The part of `decrypt` that uses the next key of the receiving chain.
  unfoldable pub use_chain : DrEnvelope → Action DrState Bytes
  use_chain e = do
    ck ← λ st. (ok_or st.ck_recv "No recv chain key", st)
    modify (λ st. record st { ck_recv = some (kdf_ck ck).0; n_recv = u64 (st.n_recv + 1) })
    lift (decrypt_with_key (kdf_ck ck).1 e)

  unfoldable pub decrypt : Bytes → DrEnvelope → Action DrState Bytes
  decrypt fresh e = do
    found ← try_skipped e
    elim found [ some plaintext ↦ pure plaintext | none ↦ advance fresh e.header >> use_chain e ]
