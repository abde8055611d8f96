-- ===== src/Sharding/Manifest.antt =====
-- Chunks on their own, and the manifest of a file (alterchat-core/src/storage.rs).
use alter_chat.Base.Result.{fail_if-not-eq-ok, ok_or, ok_inj, >>=-eq-ok, ok}
use alter_chat.Base.Bytes.{Bytes}
use alter_chat.Base.Equality.{◌==◌, ==_sound, string_eq, bytes_eq, ==_refl}
use alter_chat.Base.{
  sym, ℕ, zero, suc, ◌+◌, String, ◌≡◌, refl, ap, ◌∙◌, subst, inl, inr, Option, some, List, [], ◌∷◌,
  arith, Option-cases, length, get_elem?, length-append,
}
use alter_chat.Crypto.{Crypto, IsLawful}
use alter_chat.Sharding.{
  FileChunkMeta, EncryptedChunk, split_chunks, content_hash, encrypt_chunk, decrypt_chunk,
  chunk_metas, build_manifest,
}
use alter_chat.Sharding.Chunks.{concat, split_chunks-IsChunked}

abbrev pub total_of : List FileChunkMeta → ℕ
total_of [] = 0
total_of (m ∷ ms) = m.size + total_of ms

module _ (C : Crypto) where
  -- A chunk that was encrypted decrypts to its plaintext; and whatever chunk a receiver accepts, the
  -- hash of the plaintext that it gets is the hash that the chunk states.
  pub decrypt_chunk-encrypt_chunk :
      (L : IsLawful C) (nonce : Bytes) (index : ℕ) (key plaintext : Bytes) {chunk : EncryptedChunk}
      → encrypt_chunk C nonce index key plaintext ≡ ok chunk
      → (decrypt_chunk C key chunk ≡ ok plaintext)
        × ((other : EncryptedChunk) (p : Bytes)
            → decrypt_chunk C key other ≡ ok p
            → content_hash C p ≡ other.plaintext_hash)
  unfolding encrypt_chunk decrypt_chunk
  decrypt_chunk-encrypt_chunk L nonce index key plaintext {chunk} e = (
    elim (Option-cases (C.aead_encrypt key nonce plaintext)) [
      | inl n ↦ ground (arith, n, e)
      | inr (c, y) ↦
          let made : record {
            index = index;
            nonce = nonce;
            ciphertext = c;
            plaintext_hash = content_hash C plaintext;
          }
              ≡ chunk =
            ok_inj (ground (arith, y, e)) in
          subst (λ ch. decrypt_chunk C key ch ≡ ok plaintext) made
            (ground
              (arith, L.aead_correct key nonce plaintext y, ==_refl (content_hash C plaintext)))
    ],
    λ other p h.
        let (plain, opened, rest) =
          >>=-eq-ok
            (ok_or (C.aead_decrypt key other.nonce other.ciphertext) "chunk decryption failed") _
            h in
        let (same, result) =
          fail_if-not-eq-ok (content_hash C plain == other.plaintext_hash) _ (ok plain) rest in
        ap (content_hash C) (sym (ok_inj result)) ∙ ==_sound same,
  )

  total-chunk_metas : (i : ℕ) (cs : List Bytes) → total_of (chunk_metas C i cs) ≡ length (concat cs)
  unfolding chunk_metas
  total-chunk_metas i [] = refl
  total-chunk_metas i (c ∷ cs) =
      omega (arith, total-chunk_metas (i + 1) cs, length-append c (concat cs))

  nth-chunk_metas :
      (i n : ℕ) (cs : List Bytes) {c : Bytes}
      → get_elem? cs n ≡ some c
      → get_elem? (chunk_metas C i cs) n
        ≡ some (record { index = i + n; hash = content_hash C c; size = length c })
  unfolding chunk_metas
  nth-chunk_metas i n [] e = ground (arith, e)
  nth-chunk_metas i zero (d ∷ cs) e = ground (arith, e)
  nth-chunk_metas i (suc n) (d ∷ cs) {c} e =
      nth-chunk_metas (i + 1) n cs e
      ∙ ap (λ k. some (record { index = k; hash = content_hash C c; size = length c }))
          (omega arith)

  -- The sizes of a manifest add up to its total size, the length of the file, and its entry for each
  -- chunk of the file has the chunk's place, hash and length.
  pub build_manifest-chunks :
      (filename : String) (mime : Option String) (bytes : Bytes) (size : ℕ)
      → let m = build_manifest C filename mime bytes size in
        (total_of m.chunks ≡ m.total_size)
        × (m.total_size ≡ length bytes)
        × ((n : ℕ) (c : Bytes)
            → get_elem? (split_chunks bytes size) n ≡ some c
            → get_elem? m.chunks n
              ≡ some (record { index = n; hash = content_hash C c; size = length c }))
  unfolding build_manifest
  build_manifest-chunks filename mime bytes size = (
    total-chunk_metas 0 (split_chunks bytes size) ∙ ap length (split_chunks-IsChunked bytes size).0,
    refl,
    λ n c e.
        nth-chunk_metas 0 n (split_chunks bytes size) e
        ∙ ap (λ k. some (record { index = k; hash = content_hash C c; size = length c }))
            {x = 0 + n} {y = n} (omega arith),
  )
