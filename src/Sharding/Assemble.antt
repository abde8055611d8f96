-- ===== src/Sharding/Assemble.antt =====
-- Shards put together again (alterchat-core/src/sharding.rs).
use alter_chat.Base.Result.{ok}
use alter_chat.Base.Bytes.{Bytes}
use alter_chat.Base.{
  take_all, zero, suc, refl, sym, subst, inl, inr, Option-cases, ℕ, ◌+◌, ◌^◌, ◌<◌, String, ◌≡◌, ap,
  ◌∙◌, some, List, [], ◌∷◌, arith, u32, length, take,
}
use mathlib.Core.Option
use alter_chat.Crypto.{Crypto, IsLawful}
use alter_chat.Sharding.{
  Shard, chunks, chunk_size, encrypt_shards, split_and_encrypt, decrypt_all, decrypt_and_assemble,
}
use alter_chat.Sharding.Chunks.{concat, concat-chunks}
use alter_chat.Sharding.Order.{Perm, IsSortedFrom, sort_by_index-perm, sort_by_index_sorted}

module _ (C : Crypto) (L : IsLawful C) (nonces : ℕ → Bytes) (file_id : String) (key : Bytes) where
  -- The shards that are made: their indices grow, and any number of them from the first on decrypt
  -- to as many chunks.
  encrypt_shards_sound :
      (total i : ℕ) (cs : List Bytes) (n : ℕ) {shards : List Shard}
      → i + length cs < 2 ^ 32
      → encrypt_shards C nonces file_id key total i cs ≡ some shards
      → IsSortedFrom i (take n shards)
        × (decrypt_all C (take n shards) key ≡ ok (concat (take n cs)))
  unfolding encrypt_shards decrypt_all
  encrypt_shards_sound total i cs zero h e = (tt, refl)
  encrypt_shards_sound total i [] (suc n) {shards} h e =
      subst (λ ss. IsSortedFrom i (take (suc n) ss) × (decrypt_all C (take (suc n) ss) key ≡ ok []))
        (ap (λ o. Option.get_or o []) e) (tt, refl)
  encrypt_shards_sound total i (c ∷ cs) (suc n) {shards} h e =
      elim (Option-cases (C.aead_encrypt key (nonces i) c)) [
        | inl none_c ↦ ground (arith, none_c, e)
        | inr (ct, y) ↦ elim (Option-cases (encrypt_shards C nonces file_id key total (i + 1) cs)) [
          | inl none_r ↦ ground (arith, y, none_r, e)
          | inr (rest, z) ↦
              let (sorted, whole) =
                encrypt_shards_sound total (i + 1) cs n {shards = rest} (omega arith) z in
              let shard : Shard = record {
                index = u32 i;
                total_shards = total;
                file_id = file_id;
                ciphertext = ct;
                nonce = nonces i;
              } in
              let made : some (shard ∷ rest) ≡ some shards = ground (arith, y, z, e) in
              subst
                (λ ss.
                  IsSortedFrom i (take (suc n) ss)
                  × (decrypt_all C (take (suc n) ss) key ≡ ok (concat (take (suc n) (c ∷ cs)))))
                (ap (λ o. Option.get_or o []) made)
                (
                  (
                    omega arith,
                    subst (λ k. IsSortedFrom k (take n rest)) {x = i + 1} {y = suc (u32 i)}
                        (omega arith) sorted,
                  ),
                  ground (arith, L.aead_correct key (nonces i) c y, whole),
                )
        ]
      ]

  length-encrypt_shards :
      (total i : ℕ) (cs : List Bytes) {shards : List Shard}
      → encrypt_shards C nonces file_id key total i cs ≡ some shards
      → length shards ≡ length cs
  unfolding encrypt_shards
  length-encrypt_shards total i [] e = ground (arith, e)
  length-encrypt_shards total i (c ∷ cs) {shards} e =
      elim (Option-cases (C.aead_encrypt key (nonces i) c)) [
        | inl none_c ↦ ground (arith, none_c, e)
        | inr (ct, y) ↦ elim (Option-cases (encrypt_shards C nonces file_id key total (i + 1) cs)) [
          | inl none_r ↦ ground (arith, y, none_r, e)
          | inr (rest, z) ↦
              ground (arith, y, z, e, length-encrypt_shards total (i + 1) cs {shards = rest} z)
        ]
      ]

  -- The shards of a file of less than 2 ^ 32 chunks give back the file, in whatever order they come.
  pub decrypt_and_assemble-split_and_encrypt :
      (bytes : Bytes) {shards shuffled : List Shard}
      → length (chunks chunk_size bytes) < 2 ^ 32
      → split_and_encrypt C nonces file_id bytes key ≡ some shards
      → Perm shards shuffled
      → decrypt_and_assemble C shuffled key ≡ ok bytes
  unfolding split_and_encrypt decrypt_and_assemble
  decrypt_and_assemble-split_and_encrypt bytes {shards} {shuffled} h e p =
      let cs = chunks chunk_size bytes in
      let (sorted, whole) =
        encrypt_shards_sound (u32 (length cs)) 0 cs (length shards) (omega (arith, h)) e in
      ap (λ ss. decrypt_all C ss key)
        (sort_by_index-perm 0 p (subst (IsSortedFrom 0) (take_all shards) sorted))
      ∙ ap (λ ss. decrypt_all C ss key) (sym (take_all shards))
      ∙ whole
      ∙ ap (λ n. ok (concat (take n cs))) (length-encrypt_shards (u32 (length cs)) 0 cs e)
      ∙ ap (λ t. ok (concat t)) (take_all cs)
      ∙ ap ok (concat-chunks chunk_size bytes (omega arith))

  -- The first shards of a file, without the others, are accepted as a whole file: what they give is
  -- the beginning of the file, with no error, whatever number of shards they state.
  pub decrypt_and_assemble-missing :
      (bytes : Bytes) (n : ℕ) {shards : List Shard}
      → length (chunks chunk_size bytes) < 2 ^ 32
      → split_and_encrypt C nonces file_id bytes key ≡ some shards
      → decrypt_and_assemble C (take n shards) key ≡ ok (concat (take n (chunks chunk_size bytes)))
  unfolding split_and_encrypt decrypt_and_assemble
  decrypt_and_assemble-missing bytes n {shards} h e =
      let cs = chunks chunk_size bytes in
      let (sorted, part) = encrypt_shards_sound (u32 (length cs)) 0 cs n (omega (arith, h)) e in
      ap (λ ss. decrypt_all C ss key) (sort_by_index_sorted 0 (take n shards) sorted) ∙ part
