-- ===== src/Sharding/Tests.antt =====
-- Files in pieces (alterchat-core/src/sharding.rs and storage.rs) on small inputs.
use alter_chat.Base.Result.{ok}
use alter_chat.Base.Bytes.{Bytes}
use alter_chat.Base.{ℕ, ◌≡◌, refl, [], ◌∷◌, arith}
use alter_chat.Crypto.{toy, toy-IsLawful}
use alter_chat.Sharding.{
  Shard, EncryptedChunk, chunks, chunks_from, split_and_encrypt, encrypt_shards,
  decrypt_and_assemble, content_hash,
}
use alter_chat.Sharding.Order.{keep, none_left}
use alter_chat.Sharding.Assemble.{decrypt_and_assemble-split_and_encrypt}

abbrev nonces : ℕ → Bytes
nonces i = i ∷ []

abbrev shard : Shard
shard = record {
  index = 0;
  total_shards = 1;
  file_id = "f";
  ciphertext = 21 ∷ 1 ∷ 2 ∷ [];
  nonce = 0 ∷ [];
}

decrypt_and_assemble-split_and_encrypt_example :
    decrypt_and_assemble toy (shard ∷ []) (7 ∷ []) ≡ ok (1 ∷ 2 ∷ [])
unfolding split_and_encrypt encrypt_shards chunks chunks_from
decrypt_and_assemble-split_and_encrypt_example =
    decrypt_and_assemble-split_and_encrypt toy toy-IsLawful nonces "f" (7 ∷ []) (1 ∷ 2 ∷ [])
      {shards = shard ∷ []} {shuffled = shard ∷ []} (omega arith) refl (keep none_left)

abbrev chunk : EncryptedChunk
chunk = record {
  index = 3;
  nonce = 5 ∷ [];
  ciphertext = 26 ∷ 1 ∷ [];
  plaintext_hash = content_hash toy (1 ∷ []);
}
