-- ===== src/Sharding.antt =====
-- Files in pieces: the shards of alterchat-core/src/sharding.rs and the chunks and manifests of
-- alterchat-core/src/storage.rs. Nonces are arguments.
pub mod Chunks
pub mod Assemble
pub mod Order
pub mod Manifest
mod Tests
use alter_chat.Base.Result.{Result, ok, ok_or, fail_if, ◌>>=◌, ◌>>◌}
use alter_chat.Base.Bytes.{Bytes}
use alter_chat.Base.Equality.{◌==◌, string_eq, bytes_eq}
use alter_chat.Base.{
  ℕ, zero, suc, ◌+◌, ◌*◌, String, not, Option, none, some, List, [], ◌∷◌, ◌++◌, leb, eqb,
  if◌then◌else◌, u32, length, take, drop,
}
use mathlib.Core.Option
use alter_chat.Crypto.{Crypto}
use alter_chat.Governance.Tokens.{hex_string}

-- `data.chunks(size)` for a size above 0, with fuel.
unfoldable pub chunks_from : ℕ → ℕ → Bytes → List Bytes
chunks_from zero size bytes = []
chunks_from (suc fuel) size [] = []
chunks_from (suc fuel) size (b ∷ bs) =
    take size (b ∷ bs) ∷ chunks_from fuel size (drop size (b ∷ bs))

unfoldable pub chunks : ℕ → Bytes → List Bytes
chunks size bytes = chunks_from (length bytes) size bytes

abbrev pub chunk_size : ℕ
chunk_size = 256 * 1024

pub record Shard : Type 0 where
  pub index : ℕ
  pub total_shards : ℕ
  pub file_id : String
  pub ciphertext : Bytes
  pub nonce : Bytes

-- A stable sort by index: an element goes behind those of the same index.
unfoldable pub insert_shard : Shard → List Shard → List Shard
insert_shard s [] = s ∷ []
insert_shard s (t ∷ ts) = if leb s.index t.index then s ∷ t ∷ ts else t ∷ insert_shard s ts

-- `sort_by_key(|s| s.index)`
unfoldable pub sort_by_index : List Shard → List Shard
sort_by_index [] = []
sort_by_index (s ∷ ss) = insert_shard s (sort_by_index ss)

pub record FileChunkMeta : Type 0 where
  pub index : ℕ
  pub hash : String
  pub size : ℕ

pub record FileManifest : Type 0 where
  pub transfer_id : String
  pub filename : String
  pub total_size : ℕ
  pub mime : Option String
  pub content_hash : String
  pub chunks : List FileChunkMeta
  pub encrypted_key : Option Bytes

pub record EncryptedChunk : Type 0 where
  pub index : ℕ
  pub nonce : Bytes
  pub ciphertext : Bytes
  pub plaintext_hash : String

-- `data.chunks(chunk_size.max(1))`
unfoldable pub split_chunks : Bytes → ℕ → List Bytes
split_chunks bytes size = chunks (if eqb size 0 then 1 else size) bytes

module _ (C : Crypto) where
  -- The shards from index `i` on, with the nonce drawn for each index; `none` is the panic of a
  -- failed encryption.
  unfoldable pub encrypt_shards :
      (ℕ → Bytes) → String → Bytes → ℕ → ℕ → List Bytes → Option (List Shard)
  encrypt_shards nonces file_id key total i [] = some []
  encrypt_shards nonces file_id key total i (chunk ∷ cs) =
      elim (C.aead_encrypt key (nonces i) chunk) [
        | none ↦ none
        | some ciphertext ↦
            let shard : Shard = record {
              index = u32 i;
              total_shards = total;
              file_id = file_id;
              ciphertext = ciphertext;
              nonce = nonces i;
            } in
            Option.map (◌∷◌ shard) (encrypt_shards nonces file_id key total (i + 1) cs)
      ]

  unfoldable pub split_and_encrypt : (ℕ → Bytes) → String → Bytes → Bytes → Option (List Shard)
  split_and_encrypt nonces file_id bytes key =
      let cs = chunks chunk_size bytes in encrypt_shards nonces file_id key (u32 (length cs)) 0 cs

  unfoldable pub decrypt_all : List Shard → Bytes → Result Bytes
  decrypt_all [] key = ok []
  decrypt_all (s ∷ ss) key = do
    plain ← ok_or (C.aead_decrypt key s.nonce s.ciphertext) "Decryption failed on a shard"
    rest ← decrypt_all ss key
    ok (plain ++ rest)

  unfoldable pub decrypt_and_assemble : List Shard → Bytes → Result Bytes
  decrypt_and_assemble shards key = decrypt_all (sort_by_index shards) key

  unfoldable pub content_hash : Bytes → String
  content_hash bytes = hex_string (C.sha256 bytes)

  unfoldable pub encrypt_chunk : Bytes → ℕ → Bytes → Bytes → Result EncryptedChunk
  encrypt_chunk nonce index key plaintext = do
    ciphertext ← ok_or (C.aead_encrypt key nonce plaintext) "chunk encryption failed"
    ok (record {
      index = index;
      nonce = nonce;
      ciphertext = ciphertext;
      plaintext_hash = content_hash plaintext;
    })

  unfoldable pub decrypt_chunk : Bytes → EncryptedChunk → Result Bytes
  decrypt_chunk key chunk = do
    plaintext ← ok_or (C.aead_decrypt key chunk.nonce chunk.ciphertext) "chunk decryption failed"
    fail_if (not (content_hash plaintext == chunk.plaintext_hash)) "chunk hash mismatch"
    ok plaintext

  -- The entries of the manifest, from index `i` on.
  unfoldable pub chunk_metas : ℕ → List Bytes → List FileChunkMeta
  chunk_metas i [] = []
  chunk_metas i (chunk ∷ cs) =
      record { index = i; hash = content_hash chunk; size = length chunk } ∷ chunk_metas (i + 1) cs

  unfoldable pub build_manifest : String → Option String → Bytes → ℕ → FileManifest
  build_manifest filename mime bytes size = record {
    transfer_id = content_hash bytes;
    filename = filename;
    total_size = length bytes;
    mime = mime;
    content_hash = content_hash bytes;
    chunks = chunk_metas 0 (split_chunks bytes size);
    encrypted_key = none;
  }
