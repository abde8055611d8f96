-- ===== src/Sharding/Chunks.antt =====
-- The chunks of a byte string: together they are the string, and only the last is short.
use alter_chat.Base.Bytes.{Bytes}
use alter_chat.Base.{
  ◌⊎◌, inl, inr, dec_lt, eqb, if◌then◌else◌, length-take, ℕ, zero, suc, ◌≤◌, ◌≡◌, refl, ap, ◌∙◌,
  List, [], ◌∷◌, ◌++◌, arith, length, take, drop, take-append-drop, length-drop,
}
use alter_chat.Sharding.{chunks, split_chunks, chunks_from}

abbrev pub concat : List Bytes → Bytes
concat [] = []
concat (c ∷ cs) = c ++ concat cs

-- Every chunk but the last has the full size; the last has at least one byte and at most that.
abbrev pub IsChunked : ℕ → List Bytes → Type 0
IsChunked size [] = Unit
IsChunked size (c ∷ []) = (1 ≤ length c) × (length c ≤ size)
IsChunked size (c ∷ cs) = (length c ≡ size) × IsChunked size cs

chunks_from-concat :
    (fuel size : ℕ) (bytes : Bytes)
    → 1 ≤ size
    → length bytes ≤ fuel
    → concat (chunks_from fuel size bytes) ≡ bytes
unfolding chunks_from
chunks_from-concat zero size [] hs hf = refl
chunks_from-concat zero size (b ∷ bs) hs hf = absurd (omega arith)
chunks_from-concat (suc fuel) size [] hs hf = refl
chunks_from-concat (suc fuel) size (b ∷ bs) hs hf =
    ap (λ r. take size (b ∷ bs) ++ r)
      (chunks_from-concat fuel size (drop size (b ∷ bs)) hs
        (omega (arith, length-drop size (b ∷ bs))))
    ∙ take-append-drop size (b ∷ bs)

cons_IsChunked :
    (size : ℕ) (c : Bytes) (cs : List Bytes)
    → 1 ≤ length c
    → length c ≤ size
    → (cs ≡ []) ⊎ (length c ≡ size)
    → IsChunked size cs
    → IsChunked size (c ∷ cs)
cons_IsChunked size c [] h h' e hs = (h, h')
cons_IsChunked size c (d ∷ ds) h h' (inl e) hs = ground arith
cons_IsChunked size c (d ∷ ds) h h' (inr e) hs = (e, hs)

chunks_from-short :
    (fuel size : ℕ) (bytes : Bytes) → length bytes ≡ 0 → chunks_from fuel size bytes ≡ []
unfolding chunks_from
chunks_from-short zero size bytes h = refl
chunks_from-short (suc fuel) size [] h = refl
chunks_from-short (suc fuel) size (b ∷ bs) h = absurd (omega arith)

chunks_from-IsChunked :
    (fuel size : ℕ) (bytes : Bytes)
    → 1 ≤ size
    → length bytes ≤ fuel
    → IsChunked size (chunks_from fuel size bytes)
unfolding chunks_from
chunks_from-IsChunked zero size bytes hs hf = tt
chunks_from-IsChunked (suc fuel) size [] hs hf = tt
chunks_from-IsChunked (suc fuel) size (b ∷ bs) hs hf =
    let rest = drop size (b ∷ bs) in
    cons_IsChunked size (take size (b ∷ bs)) (chunks_from fuel size rest)
      (omega (arith, length-take size (b ∷ bs))) (omega (arith, length-take size (b ∷ bs)))
      (elim (dec_lt size (suc (length bs))) [
        | yes lt ↦ inr (omega (arith, length-take size (b ∷ bs)))
        | no ge ↦ inl (chunks_from-short fuel size rest (omega (arith, length-drop size (b ∷ bs))))
      ])
      (chunks_from-IsChunked fuel size rest hs (omega (arith, length-drop size (b ∷ bs))))

-- The chunks of a byte string put together again are the string; each but the last has exactly the
-- chunk size (or one byte, if the size is given as 0), and the last is not empty and no longer.
pub split_chunks-IsChunked :
    (bytes : Bytes) (size : ℕ)
    → (concat (split_chunks bytes size) ≡ bytes)
      × IsChunked (if eqb size 0 then 1 else size) (split_chunks bytes size)
unfolding split_chunks chunks
split_chunks-IsChunked bytes size =
    let positive : 1 ≤ (if eqb size 0 then 1 else size) = ground arith in
    (
      chunks_from-concat (length bytes) (if eqb size 0 then 1 else size) bytes positive
          (omega arith),
      chunks_from-IsChunked (length bytes) (if eqb size 0 then 1 else size) bytes positive
          (omega arith),
    )

pub concat-chunks : (size : ℕ) (bytes : Bytes) → 1 ≤ size → concat (chunks size bytes) ≡ bytes
unfolding chunks
concat-chunks size bytes h = chunks_from-concat (length bytes) size bytes h (omega arith)
