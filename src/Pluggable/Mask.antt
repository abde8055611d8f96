-- ===== src/Pluggable/Mask.antt =====
-- The masks of obfs4 (alterchat-core/src/pluggable.rs): their length, and the round trip.
use alter_chat.Base.Result.{ok}
use alter_chat.Crypto.{IsLawful, Crypto}
use alter_chat.Pluggable.{
  obfs4_obfuscate, unmask, obfs4_deobfuscate, derive_mask, mask_loop, Crypto, bit_xor, xor_bytes,
}
use alter_chat.Base.Bytes.{from_be16-to_be16, to_be32, Bytes, IsBytes}
use alter_chat.Base.Table.{passes_below_at, passes_below}
use alter_chat.Base.{
  take_prefix, drop_prefix, ◌^◌, Bool, false, if◌then◌else◌, u16, zero, suc, ◌+◌, ◌-◌, min, ◌++◌,
  dec_lt, ltb, u32, take, length-append, length-take, ℕ, ◌≤◌, ◌<◌, [], ◌∷◌, arith, length, ◌≡◌,
  refl, true, eqb,
}

xor_table : passes_below 256 (λ m. passes_below 256 (λ d. eqb d (bit_xor (bit_xor d m) m))) ≡ true
unfolding passes_below
xor_table = refl

-- Two bytes added and a byte of the two added again.
bit_xor_cancel : (a b : ℕ) → a < 256 → b < 256 → bit_xor (bit_xor a b) b ≡ a
bit_xor_cancel a b ha hb =
    ground (arith, passes_below_at 256 _ a ha (passes_below_at 256 _ b hb xor_table))

xor_bytes_cancel :
    (xs ms : Bytes)
    → IsBytes xs
    → IsBytes ms
    → length xs ≤ length ms
    → xor_bytes (xor_bytes xs ms) ms ≡ xs
unfolding xor_bytes
xor_bytes_cancel [] ms hx hm h = refl
xor_bytes_cancel (x ∷ xs) [] hx hm h = absurd (omega arith)
xor_bytes_cancel (x ∷ xs) (m ∷ ms) hx hm h =
    ground (arith, bit_xor_cancel x m hx.0 hm.0, xor_bytes_cancel xs ms hx.1 hm.1 (omega arith))

length-xor_bytes : (xs ms : Bytes) → length xs ≤ length ms → length (xor_bytes xs ms) ≡ length xs
unfolding xor_bytes
length-xor_bytes [] ms h = refl
length-xor_bytes (x ∷ xs) [] h = absurd (omega arith)
length-xor_bytes (x ∷ xs) (m ∷ ms) h = omega (arith, length-xor_bytes xs ms (omega arith))

take-IsBytes : (n : ℕ) (xs : Bytes) → IsBytes xs → IsBytes (take n xs)
take-IsBytes zero xs h = tt
take-IsBytes (suc n) [] h = tt
take-IsBytes (suc n) (x ∷ xs) h = (h.0, take-IsBytes n xs h.1)

append-IsBytes : (xs ys : Bytes) → IsBytes xs → IsBytes ys → IsBytes (xs ++ ys)
append-IsBytes [] ys hx hy = hy
append-IsBytes (x ∷ xs) ys hx hy = (hx.0, append-IsBytes xs ys hx.1 hy)

if_IsBytes : (c : Bool) (xs ys : Bytes) → IsBytes xs → IsBytes ys → IsBytes (if c then xs else ys)
if_IsBytes true xs ys hx hy = hx
if_IsBytes false xs ys hx hy = hy

module _ (C : Crypto) (L : IsLawful C) (key nonce : Bytes) where
  -- What one round of the loop adds.
  abbrev block : ℕ → Bytes → ℕ → Bytes
  block len mask counter =
      let b = C.sha256 (key ++ (nonce ++ to_be32 counter)) in
      take (min (length b) (len - length mask)) b

  length-block :
      (len : ℕ) (mask : Bytes) (counter : ℕ)
      → length mask < len
      → 1 ≤ length (block len mask counter)
  length-block len mask counter h = omega (
    arith,
    length-take (min (length (C.sha256 (key ++ (nonce ++ to_be32 counter)))) (len - length mask))
        (C.sha256 (key ++ (nonce ++ to_be32 counter))),
    L.length-sha256 (key ++ (nonce ++ to_be32 counter)),
  )

  block-IsBytes : (len : ℕ) (mask : Bytes) (counter : ℕ) → IsBytes (block len mask counter)
  block-IsBytes len mask counter = take-IsBytes _ _ (L.sha256-IsBytes _)

  length-mask_loop :
      (fuel len : ℕ) (mask : Bytes) (counter : ℕ)
      → len ≤ length mask + fuel
      → len ≤ length (mask_loop C fuel key nonce len mask counter)
  unfolding mask_loop
  length-mask_loop zero len mask counter h = omega arith
  length-mask_loop (suc fuel) len mask counter h = elim (dec_lt (length mask) len) [
    | yes lt ↦
        let next = mask ++ block len mask counter in
        ground (
          arith,
          length-mask_loop fuel len next (u32 (counter + 1)) (
              omega (
                arith,
                length-append mask (block len mask counter),
                length-block len mask counter lt,
              )),
        )
    | no ge ↦ ground arith
  ]

  mask_loop-IsBytes :
      (fuel len : ℕ) (mask : Bytes) (counter : ℕ)
      → IsBytes mask
      → IsBytes (mask_loop C fuel key nonce len mask counter)
  unfolding mask_loop
  mask_loop-IsBytes zero len mask counter h = h
  mask_loop-IsBytes (suc fuel) len mask counter h =
      if_IsBytes (ltb (length mask) len) _ mask
        (mask_loop-IsBytes fuel len (mask ++ block len mask counter) (u32 (counter + 1))
          (append-IsBytes mask (block len mask counter) h (block-IsBytes len mask counter)))
        h

  -- A mask for `len` bytes has exactly that length: the fuel never runs out.
  pub length-derive_mask : (len : ℕ) → length (derive_mask C key nonce len) ≡ len
  unfolding derive_mask
  length-derive_mask len = omega (
    arith,
    length-take len (mask_loop C len key nonce len [] 0),
    length-mask_loop len len [] 0 (omega arith),
  )

  derive_mask-IsBytes : (len : ℕ) → IsBytes (derive_mask C key nonce len)
  unfolding derive_mask
  derive_mask-IsBytes len =
      take-IsBytes len (mask_loop C len key nonce len [] 0) (mask_loop-IsBytes len len [] 0 tt)

  unmask-mask :
      (xs padding : Bytes)
      → IsBytes xs
      → length nonce ≡ 16
      → unmask C key
          (length xs)
          (nonce ++ (xor_bytes xs (derive_mask C key nonce (length xs)) ++ padding))
        ≡ ok xs
  unfolding unmask
  unmask-mask xs padding hx hn =
      let mask = derive_mask C key nonce (length xs) in
      let body = xor_bytes xs mask in
      let hl : length xs ≤ length mask = omega (arith, length-derive_mask (length xs)) in
      ground (
        arith,
        take_prefix 16 nonce (body ++ padding) hn,
        drop_prefix 16 nonce (body ++ padding) hn,
        take_prefix (length xs) body padding (length-xor_bytes xs mask hl),
        xor_bytes_cancel xs mask hx (derive_mask-IsBytes (length xs)) hl,
        length-append nonce (body ++ padding),
        length-append body padding,
        length-xor_bytes xs mask hl,
      )

  -- What the receiver reads of an obfuscated packet is the data that was sent, for data of less
  -- than 2 ^ 16 bytes, a nonce of 16 bytes and any padding (SHA-256 gives 32 bytes).
  pub obfs4_deobfuscate-obfs4_obfuscate :
      (padding xs : Bytes)
      → IsBytes xs
      → length xs < 2 ^ 16
      → length nonce ≡ 16
      → obfs4_deobfuscate C key (obfs4_obfuscate C key nonce padding xs) ≡ ok xs
  unfolding obfs4_deobfuscate obfs4_obfuscate
  obfs4_deobfuscate-obfs4_obfuscate padding xs hx hl hn = ground (
    arith,
    unmask-mask xs padding hx hn,
    from_be16-to_be16 (u16 (length xs)) (omega arith),
    length-append nonce (xor_bytes xs (derive_mask C key nonce (length xs)) ++ padding),
  )
