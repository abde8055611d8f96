-- ===== src/Ratchet/Session.antt =====
-- A sender and a receiver of the symmetric ratchet (alterchat-core/src/crypto.rs), with losses.
use alter_chat.Base.Result.{Result, ok, err}
use alter_chat.Base.Bytes.{Bytes}
use alter_chat.Base.{
  suc, ap, ◌∙◌, inl, inr, Option-cases, ◌+◌, ◌-◌, ◌^◌, ◌≤◌, ◌<◌, ◌≡◌, Bool, true, false, Option,
  none, some, List, [], ◌∷◌, arith, if◌then◌else◌, u64, length,
}
use alter_chat.Crypto.{Crypto, IsLawful}
use alter_chat.Pow.{to_be64}
use alter_chat.Ratchet.{RatchetState, derive_key, advance_chain, ratchet_encrypt, ratchet_decrypt}
use alter_chat.Ratchet.Chain.{ratchet_decrypt-eq, chain_at, caught_up}
use mathlib.Core.Option

-- The receiver's chain leads to the sender's current key at the sender's counter.
pub record InSync (C : Crypto) (s r : RatchetState) : Type 0 where
  pub behind : r.recv_count ≤ s.send_count
  pub same_chain : s.send_chain_key ≡ chain_at C r.recv_chain_key (s.send_count - r.recv_count)

-- The plaintexts of the messages that arrive.
abbrev pub arrived : List (Bool × Bytes × Bytes) → List (Result Bytes)
arrived [] = []
arrived ((true, nonce, p) ∷ ms) = ok p ∷ arrived ms
arrived ((false, nonce, p) ∷ ms) = arrived ms

module _ (C : Crypto) where
  -- Each message is encrypted and, if its flag says that it arrives, decrypted before the next is
  -- sent; what the receiver read. `none` is that an encryption has failed.
  unfoldable pub run :
      List (Bool × Bytes × Bytes) → RatchetState → RatchetState → Option (List (Result Bytes))
  run [] s r = some []
  run ((arrives, nonce, p) ∷ ms) s r =
      let (encrypted, s') = ratchet_encrypt C nonce p s in
      elim encrypted [
        | err e ↦ none
        | ok e ↦
            let (x, r') = ratchet_decrypt C e r in
            let received = Option.map (◌∷◌ x) (run ms s' r') in
            let lost = run ms s' r in if arrives then received else lost
      ]

module _ (C : Crypto) (L : IsLawful C) where
  -- The sender after a message, and the receiver after the message that it gets.
  abbrev sent : RatchetState → RatchetState
  sent s = record s {
    send_chain_key = advance_chain C s.send_chain_key;
    send_count = u64 (s.send_count + 1);
  }

  abbrev received : RatchetState → RatchetState → RatchetState
  received s r = record (caught_up C r s.send_count) {
    recv_chain_key = advance_chain C (caught_up C r s.send_count).recv_chain_key;
    recv_count = u64 (s.send_count + 1);
  }

  sent-InSync :
      (s r : RatchetState) → InSync C s r → s.send_count + 1 < 2 ^ 64 → InSync C (sent s) r
  unfolding chain_at
  sent-InSync s r I h = record {
    behind = omega (arith, I.behind);
    same_chain =
        ap (advance_chain C) I.same_chain
        ∙ ap (chain_at C r.recv_chain_key) {x = suc (s.send_count - r.recv_count)}
            (omega (arith, I.behind));
  }

  received-InSync :
      (s r : RatchetState)
      → InSync C s r
      → s.send_count + 1 < 2 ^ 64
      → InSync C (sent s) (received s r)
  unfolding chain_at
  received-InSync s r I h = record {
    behind = omega arith;
    same_chain =
        ap (advance_chain C) I.same_chain
        ∙ ap
            (chain_at C
              (advance_chain C (chain_at C r.recv_chain_key (s.send_count - r.recv_count))))
            {x = 0} (omega arith);
  }

  decrypt-InSync :
      (s r : RatchetState) (nonce p : Bytes) {c : Bytes}
      → InSync C s r
      → s.send_count < 2 ^ 64
      → C.aead_encrypt (derive_key C s.send_chain_key (to_be64 s.send_count)) nonce p ≡ some c
      → ratchet_decrypt C (record { counter = s.send_count; nonce = nonce; ciphertext = c }) r
        ≡ (ok p, received s r)
  decrypt-InSync s r nonce p {c} I h e = ground (
    arith,
    ratchet_decrypt-eq C (record { counter = s.send_count; nonce = nonce; ciphertext = c }) r h,
    I.same_chain,
    L.aead_correct _ nonce p e,
  )

  -- If every encryption succeeds, a receiver in step with the sender reads exactly the plaintexts
  -- of the messages that arrive, whichever are lost on the way.
  pub run-arrived :
      (ms : List (Bool × Bytes × Bytes)) (s r : RatchetState) {rs : List (Result Bytes)}
      → InSync C s r
      → s.send_count + length ms < 2 ^ 64
      → run C ms s r ≡ some rs
      → rs ≡ arrived ms
  unfolding run ratchet_encrypt
  run-arrived [] s r I h e = ground (arith, e)
  run-arrived ((true, nonce, p) ∷ ms) s r I h e =
      elim (Option-cases
        (C.aead_encrypt (derive_key C s.send_chain_key (to_be64 s.send_count)) nonce p)) [
          | inl n ↦ ground (arith, n, e)
          | inr (c, y) ↦ elim (Option-cases (run C ms (sent s) (received s r))) [
            | inl n ↦ ground (arith, n, e, y, decrypt-InSync s r nonce p I (omega arith) y)
            | inr (rs', z) ↦ ground (
              arith,
              e,
              y,
              z,
              decrypt-InSync s r nonce p I (omega arith) y,
              run-arrived ms (sent s) (received s r) {rs = rs'}
                  (received-InSync s r I (omega arith)) (omega arith) z,
            )
          ]
        ]
  run-arrived ((false, nonce, p) ∷ ms) s r I h e =
      elim (Option-cases
        (C.aead_encrypt (derive_key C s.send_chain_key (to_be64 s.send_count)) nonce p)) [
          | inl n ↦ ground (arith, n, e)
          | inr (c, y) ↦
              run-arrived ms (sent s) r (sent-InSync s r I (omega arith)) (omega arith)
                (ground (arith, e, y))
        ]
