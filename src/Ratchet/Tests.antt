-- ===== src/Ratchet/Tests.antt =====
-- The symmetric ratchet (alterchat-core/src/crypto.rs) on small inputs.
use alter_chat.Base.Result.{ok}
use alter_chat.Base.Bytes.{Bytes}
use alter_chat.Base.{◌≡◌, refl, Bool, true, false, List, [], ◌∷◌, arith}
use alter_chat.Crypto.{toy, toy-IsLawful}
use alter_chat.Ratchet.{
  RatchetState, RatchetEnvelope, for_peer_pair, derive_static_shared_secret, derive_key,
  advance_chain, advance_to, ratchet_encrypt, ratchet_decrypt,
}
use alter_chat.Ratchet.Chain.{chain_at}
use alter_chat.Ratchet.Session.{InSync, run, arrived, run-arrived}
use alter_chat.Ratchet.Pair.{for_peer_pair-InSync}

abbrev alice : RatchetState
alice = record {
  root_key = 1 ∷ [];
  send_chain_key = 7 ∷ [];
  recv_chain_key = 8 ∷ [];
  send_count = 0;
  recv_count = 0;
}

abbrev bob : RatchetState
bob = record {
  root_key = 1 ∷ [];
  send_chain_key = 8 ∷ [];
  recv_chain_key = 7 ∷ [];
  send_count = 0;
  recv_count = 0;
}

in_sync : InSync toy alice bob
unfolding chain_at
in_sync = record { behind = omega arith; same_chain = refl }

abbrev messages : List (Bool × Bytes × Bytes)
messages = (true, 1 ∷ [], 72 ∷ 105 ∷ []) ∷ (false, 2 ∷ [], 66 ∷ []) ∷ (true, 3 ∷ [], 67 ∷ []) ∷ []

run-arrived_example : ok (72 ∷ 105 ∷ []) ∷ ok (67 ∷ []) ∷ [] ≡ arrived messages
unfolding run ratchet_encrypt ratchet_decrypt derive_key advance_chain advance_to
run-arrived_example =
    run-arrived toy toy-IsLawful messages alice bob {rs = ok (72 ∷ 105 ∷ []) ∷ ok (67 ∷ []) ∷ []}
      in_sync (omega arith) refl

for_peer_pair-InSync_example :
    let mine =
      for_peer_pair toy (derive_static_shared_secret toy (5 ∷ []) (6 ∷ [])) "alice" "bob" in
    let theirs =
      for_peer_pair toy (derive_static_shared_secret toy (6 ∷ []) (5 ∷ [])) "bob" "alice" in
    InSync toy mine theirs × InSync toy theirs mine × (mine.root_key ≡ theirs.root_key)
for_peer_pair-InSync_example =
    for_peer_pair-InSync toy toy-IsLawful (5 ∷ []) (6 ∷ []) "alice" "bob" (λ e. ground (arith, e))

abbrev forged : RatchetEnvelope
forged = record { counter = 2; nonce = []; ciphertext = [] }

abbrev genuine : RatchetEnvelope
genuine = record { counter = 0; nonce = 1 ∷ []; ciphertext = 1 ∷ 2 ∷ [] }
