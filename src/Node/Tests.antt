-- ===== src/Node/Tests.antt =====
-- Requests to a node of a small world.
use alter_chat.Base.{
  ◌⊎◌, ◌^◌, ℕ_discrete, ℕ, String, true, false, none, some, List, [], ◌∷◌, ◌++◌, ◌≡◌, refl, arith,
  inr, subst, some_inj,
}
use mathlib.Core.Option
use alter_chat.Base.Equality.{string_eq, strings_eq, bytes_eq}
use alter_chat.Int.{pos, ◌≤ℤ◌, i64, ◌*ℤ◌}
use alter_chat.Crypto.{toy}
use alter_chat.Sharding.{content_hash}
use alter_chat.Db.Rows.{StorageSettings, PeerSettings}
use alter_chat.Db.Schema.{Db}
use alter_chat.FileTransfer.{
  P2pRequest, file, file_chunk, webrtc_signal, x3dh_dm, x3dh_dm_ack, rejection_for_request,
}
use alter_chat.Db.Nodes.{stored_chunk_bytes}
use alter_chat.Node.Types.{decode_x25519_hex, Moment, respond}
use alter_chat.Node.Toy.{world, moment, db, node}
use alter_chat.Node.Answers.{IsAnswered, handle_request-IsAnswered}
use alter_chat.Node.Requests.{serve, handle_request}
use alter_chat.Node.Quota.{HasSizes, carried, IsBounded, IsModest, IsWithinQuota}
use alter_chat.Node.Quota.Sequence.{IsSmall, handle_all, handle_all-IsBounded}
use alter_chat.Node.Files.{quota_bytes}
use alter_chat.Node.Reading.{IsRead}
use alter_chat.Node.Refusal.{IsUnwelcome, handle_request_refusal, serve_x3dh_dm_cases}
use alter_chat.Db.Messages.{get_friends, load_ratchet_state}
use alter_chat.Db.Table.{find}
use alter_chat.Envelope.{ltb_bytes}
use alter_chat.DoubleRatchet.{
  DrState, decrypt, try_skipped, advance, skip_message_keys, dh_ratchet, use_chain,
  decrypt_with_key, skip_loop, init_alice, kdf_ck, kdf_rk,
}
use alter_chat.Ratchet.{derive_static_shared_secret}
use alter_chat.Desk.Sessions.{load_or_init_dr_state, stored_state}
use alter_chat.Node.Direct.{
  serve_x3dh_dm, conclude, receive_x3dh_message, find_friend, friend_key, ltb_id,
  new_private_message, received,
}

handle_request-IsAnswered_example :
    IsAnswered
      (file "notes" (1 ∷ []))
      (handle_request world moment "bob" (file "notes" (1 ∷ [])) node).0
handle_request-IsAnswered_example =
    handle_request-IsAnswered world moment "bob" (file "notes" (1 ∷ [])) node refl

-- Two pieces of a friend's file.
abbrev piece : ℕ → P2pRequest
piece i = file_chunk "file" i 2 (content_hash toy (i ∷ [])) (i ∷ [])

abbrev pieces : List (Moment × String × P2pRequest)
pieces = (moment, "bob", piece 0) ∷ (moment, "bob", piece 1) ∷ []

quota_there : IsBounded (some db)
unfolding IsBounded IsModest IsWithinQuota quota_bytes i64 ◌*ℤ◌ HasSizes stored_chunk_bytes
quota_there = (
  λ s there.
      subst (λ (t : StorageSettings). quota_bytes t.quota_mb ≤ℤ pos (2 ^ 62)) (some_inj there)
        (omega arith),
  (
    tt,
    λ s there.
        subst (λ (t : StorageSettings). pos 0 ≤ℤ quota_bytes t.quota_mb) (some_inj there)
          (omega arith),
  ),
)

handle_all-IsBounded_example : IsBounded (handle_all world pieces node).conn
unfolding IsSmall carried
handle_all-IsBounded_example =
    handle_all-IsBounded world pieces node (omega arith, (omega arith, tt)) quota_there

handle_request_refusal_example :
    ((handle_request world moment "mallory" (webrtc_signal "call") node).0
      ≡ respond (rejection_for_request (webrtc_signal "call")) ∷ [])
    × ((rows : List PeerSettings) × ((handle_request world moment "mallory"
            (webrtc_signal "call")
            node).1
          ≡ record node { conn = some (record db { peer_settings = rows }) }))
unfolding IsUnwelcome get_friends string_eq
handle_request_refusal_example =
    handle_request_refusal world moment "mallory" (webrtc_signal "call") node db refl refl
      (inr (refl, refl))

-- That message can be read.
hello_arrives :
    (serve world moment "bob" (x3dh_dm none (9 ∷ []) [] "Bob" (pos 1) none) node).0
    ≡ new_private_message (received "bob" "Bob" "hello" (pos 1) none)
      ∷ respond (x3dh_dm_ack true)
      ∷ []
unfolding serve serve_x3dh_dm conclude Option.bind receive_x3dh_message friend_key find_friend
    get_friends string_eq decode_x25519_hex decrypt try_skipped load_or_init_dr_state stored_state
    load_ratchet_state find ltb_id ltb_bytes init_alice derive_static_shared_secret kdf_rk kdf_ck
    advance skip_message_keys dh_ratchet use_chain decrypt_with_key bytes_eq ℕ_discrete skip_loop
hello_arrives = refl

serve_x3dh_dm_cases_example :
    let (effects, after) =
      serve world moment "bob" (x3dh_dm none (9 ∷ []) [] "Bob" (pos 1) none) node in
    (((words : String) (st : DrState) → ¬ IsRead world moment node db "bob" (9 ∷ []) words st)
      × (effects ≡ respond (x3dh_dm_ack false) ∷ [])
      × (after ≡ node))
    ⊎ ((words : String) × (st : DrState) × (db' : Db) × IsRead world moment node db "bob"
          (9 ∷ [])
          words
          st
        × (effects
            ≡ new_private_message (received "bob" "Bob" words (pos 1) none)
              ∷ respond (x3dh_dm_ack true)
              ∷ [])
        × (after ≡ record node { conn = some db' })
        × (db'.private_messages
            ≡ db.private_messages
              ++ record {
                peer_id = "bob";
                sender_is_me = false;
                text = words;
                timestamp = pos 1;
                ttl = none;
              }
                ∷ []))
serve_x3dh_dm_cases_example =
    serve_x3dh_dm_cases world moment "bob" none (9 ∷ []) [] "Bob" (pos 1) none node db refl
