-- ===== src/DoubleRatchet/Tests.antt =====
-- The session of two parties over the toy primitives, and the theorems at it.
use alter_chat.DoubleRatchet.Skipped.{find_key}
use alter_chat.DoubleRatchet.Receive.{Follows, IsSent}
use alter_chat.DoubleRatchet.Chain.{message_key, chain_key}
use alter_chat.Base.Result.{ok, err}
use alter_chat.Base.Bytes.{Bytes}
use alter_chat.Base.Equality.{bytes_eq}
use alter_chat.Base.{
  ℕ, zero, suc, ◌+◌, ◌*◌, ◌≤◌, none, some, ◌≡◌, refl, List, [], ◌∷◌, arith, ℕ_discrete,
}
use alter_chat.Crypto.{toy, toy-IsLawful}
use alter_chat.DoubleRatchet.{
  DrState, max_skip, decrypt_with_key, DrEnvelope, kdf_rk, kdf_ck, init_alice, init_bob, encrypt,
  decrypt, try_skipped, advance, use_chain, skip_message_keys, skip_loop, skip_one, dh_ratchet,
  is_key_of,
}
use alter_chat.DoubleRatchet.Order.{send_all, deliver}
use alter_chat.DoubleRatchet.Epoch.{session_any_order}
use alter_chat.DoubleRatchet.Agreement.{turn, IsAhead, start, Session-agrees}
use alter_chat.DoubleRatchet.Turn.{Holds, decrypt-new_epoch, decrypt_old_epoch}
use alter_chat.DoubleRatchet.Bounds.{store_size, decrypt-size}
use alter_chat.DoubleRatchet.Replay.{decrypt_too_far, forgery_burns_key}

abbrev messages : List (Bytes × Bytes)
messages = (1 ∷ [], 72 ∷ 105 ∷ []) ∷ (2 ∷ [], 66 ∷ []) ∷ (3 ∷ [], 67 ∷ []) ∷ []

abbrev envelopes : List DrEnvelope
envelopes = elim (send_all toy messages (init_alice toy (5 ∷ []) (42 ∷ []) (7 ∷ []))).0 [
  | ok es ↦ es
  | err x ↦ []
]

-- The last message comes first.
session_any_order_example :
    deliver toy envelopes
      ((9 ∷ [], 2) ∷ (9 ∷ [], 0) ∷ (9 ∷ [], 1) ∷ [])
      (init_bob toy (42 ∷ []) (7 ∷ []) (7 ∷ []))
    ≡ ok (67 ∷ []) ∷ ok (72 ∷ 105 ∷ []) ∷ ok (66 ∷ []) ∷ []
unfolding send_all encrypt init_alice kdf_rk kdf_ck
session_any_order_example =
    session_any_order toy toy-IsLawful (5 ∷ []) (42 ∷ []) (7 ∷ []) messages
      ((9 ∷ [], 2) ∷ (9 ∷ [], 0) ∷ (9 ∷ [], 1) ∷ []) (omega arith) refl (omega arith)
      (refl, (refl, (refl, tt))) (omega arith)

-- The same delivery, by running the code.
session_runs :
    deliver toy envelopes
      ((9 ∷ [], 2) ∷ (9 ∷ [], 0) ∷ (9 ∷ [], 1) ∷ [])
      (init_bob toy (42 ∷ []) (7 ∷ []) (7 ∷ []))
    ≡ ok (67 ∷ []) ∷ ok (72 ∷ 105 ∷ []) ∷ ok (66 ∷ []) ∷ []
unfolding deliver decrypt try_skipped advance use_chain skip_message_keys skip_loop skip_one
    dh_ratchet decrypt_with_key is_key_of bytes_eq send_all encrypt init_alice init_bob kdf_rk
    kdf_ck ℕ_discrete
session_runs = refl

abbrev peer : Bytes
peer = 5 ∷ []

abbrev ck : Bytes
ck = 11 ∷ []

-- The message of index `n` on the chain of `ck`, after `pn` messages of an earlier epoch.
abbrev message : Bytes → Bytes → ℕ → ℕ → DrEnvelope
message d key pn n = record {
  header = record { dh = d; pn = pn; n = n };
  nonce = 1 ∷ [];
  ciphertext = elim (toy.aead_encrypt (message_key toy key n) (1 ∷ []) (65 ∷ [])) [
    | none ↦ []
    | some c ↦ c
  ];
}

message-IsSent : (d key : Bytes) (pn n : ℕ) → IsSent toy d key (message d key pn n) (65 ∷ [])
message-IsSent d key pn n = record { sender = refl; sealed = refl }

-- A receiver that has read message 0.
abbrev reader : DrState
reader = record {
  dh_send = 7 ∷ [];
  dh_send_pub = 7 ∷ [];
  dh_recv = some peer;
  root_key = 1 ∷ [];
  ck_send = none;
  ck_recv = some (chain_key toy ck 1);
  n_send = 0;
  n_recv = 1;
  pn = 0;
  skipped = [];
}

reader-Follows : Follows toy peer ck (0 ∷ []) reader
unfolding find_key
reader-Follows = record {
  peer = refl;
  chain = refl;
  held = λ i lt unused. absurd (ground arith);
  fresh = λ i le. refl;
}

decrypt_too_far_example :
    decrypt toy [] (message peer ck 0 5000) reader ≡ (err "Too many skipped messages", reader)
unfolding find_key
decrypt_too_far_example =
    decrypt_too_far toy [] (message peer ck 0 5000) reader refl refl (omega arith) (omega arith)

-- The toy cipher rejects the genuine message there.
replay_loses_next_fails :
    decrypt_with_key toy (message_key toy ck 2) (message peer ck 0 1) ≡ err "Decryption failed"
unfolding decrypt_with_key message_key chain_key kdf_ck
replay_loses_next_fails = refl

forgery_burns_key_example :
    (decrypt toy [] (message peer ck 0 3) (decrypt toy [] (message peer [] 0 3) reader).1).0
    ≡ decrypt_with_key toy (message_key toy ck 4) (message peer ck 0 3)
forgery_burns_key_example =
    forgery_burns_key toy peer ck [] [] (0 ∷ []) (message peer [] 0 3) (message peer ck 0 3) reader
      reader-Follows refl (omega arith) (omega arith) (omega arith) refl refl

decrypt-size_example :
    store_size (decrypt toy [] (message peer ck 0 900) reader).1 ≤ store_size reader + 2 * max_skip
decrypt-size_example = decrypt-size toy [] (message peer ck 0 900) reader

-- A sender that has turned its ratchet against the reader.
abbrev writer : DrState
writer = record {
  dh_send = 13 ∷ [];
  dh_send_pub = 13 ∷ [];
  dh_recv = some (7 ∷ []);
  root_key = (kdf_rk toy (1 ∷ []) (20 ∷ [])).0;
  ck_send = some (kdf_rk toy (1 ∷ []) (20 ∷ [])).1;
  ck_recv = none;
  n_send = 0;
  n_recv = 0;
  pn = 4;
  skipped = [];
}

writer-IsAhead : IsAhead toy writer reader
unfolding chain_key
writer-IsAhead = record {
  own = refl;
  other = refl;
  root = refl;
  sends = record { sender = refl; chain = refl };
}

decrypt-new_epoch_example :
    let key = (turn toy writer reader).1 in
    let (r, st) = decrypt toy (3 ∷ []) (message (13 ∷ []) key 4 2) reader in
    (r ≡ ok (65 ∷ []))
    × Follows toy (13 ∷ []) key (2 ∷ []) st
    × Holds toy peer ck (0 ∷ []) 4 st.skipped
unfolding find_key
decrypt-new_epoch_example =
    decrypt-new_epoch toy toy-IsLawful writer reader (3 ∷ []) peer ck (0 ∷ [])
      (message (13 ∷ []) (turn toy writer reader).1 4 2) (65 ∷ []) writer-IsAhead reader-Follows
      (λ e. absurd (ground arith)) (λ i. refl)
      (message-IsSent (13 ∷ []) (turn toy writer reader).1 4 2) (omega arith) (omega arith)
      (omega arith) (omega arith)

-- A state that holds the key of message 1 of an ended epoch.
abbrev holder : DrState
holder = record reader {
  dh_recv = some (13 ∷ []);
  skipped = record { dh_pub = peer; n = 1; mk = message_key toy ck 1 } ∷ [];
}

holder-Holds : Holds toy peer ck (0 ∷ []) 2 holder.skipped
unfolding find_key is_key_of
holder-Holds zero lt unused = absurd (ground arith)
holder-Holds (suc zero) lt unused = ground arith
holder-Holds (suc (suc i)) lt unused = absurd (omega arith)

decrypt_old_epoch_example :
    let (r, st) = decrypt toy [] (message peer ck 0 1) holder in
    (r ≡ ok (65 ∷ []))
    × (st ≡ record holder { skipped = st.skipped })
    × Holds toy peer ck (1 ∷ 0 ∷ []) 2 st.skipped
decrypt_old_epoch_example =
    decrypt_old_epoch toy toy-IsLawful [] peer ck (0 ∷ []) 2 (message peer ck 0 1) (65 ∷ []) holder
      holder-Holds (message-IsSent peer ck 0 1) (omega arith) refl

Session-agrees_example :
    let alice = init_alice toy (5 ∷ []) (42 ∷ []) (7 ∷ []) in
    let bob = init_bob toy (42 ∷ []) (7 ∷ []) (7 ∷ []) in
    let bob' = dh_ratchet toy (9 ∷ []) alice.dh_send_pub bob in
    (key : Bytes) × (bob'.ck_recv ≡ some key)
    × (alice.ck_send ≡ some (chain_key toy key alice.n_send))
    × (bob'.n_recv ≡ 0)
Session-agrees_example =
    Session-agrees toy toy-IsLawful (init_alice toy (5 ∷ []) (42 ∷ []) (7 ∷ []))
      (init_bob toy (42 ∷ []) (7 ∷ []) (7 ∷ [])) (9 ∷ []) (start (5 ∷ []) (7 ∷ []) refl refl)
