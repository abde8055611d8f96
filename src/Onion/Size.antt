-- ===== src/Onion/Size.antt =====
-- The size of a layer with its padding (alterchat-core/src/onion.rs).
use alter_chat.Base.Result.{ok}
use alter_chat.Base.Bytes.{Bytes}
use alter_chat.Base.{
  ℕ, ◌+◌, ◌-◌, ◌≤◌, ◌<◌, ◌≡◌, none, some, [], arith, length, replicate, length-replicate,
}
use alter_chat.Crypto.{Crypto}
use alter_chat.Onion.{OnionLayer, OnionCodec, OnionIsLawful, target_size, padding_for, padded_bytes}

module _ (C : Crypto) (K : OnionCodec) (M : OnionIsLawful K) where
  -- A layer of at most 2 ^ 14 - 8 bytes is padded to exactly that size, 8 bytes below the target; one
  -- of at least 2 ^ 14 bytes keeps its size; and one between the two ends the program in a panic.
  pub padded_bytes-size :
      (l : OnionLayer) {initial : Bytes}
      → l.padding ≡ []
      → K.serialize l ≡ some initial
      → (length initial + 8 ≤ target_size
          → (b : Bytes) × (padded_bytes C K l ≡ some (ok b)) × (length b + 8 ≡ target_size))
        × (target_size ≤ length initial
            → (b : Bytes) × (padded_bytes C K l ≡ some (ok b)) × (length b ≡ length initial))
        × (length initial < target_size
            → target_size < length initial + 8
            → padded_bytes C K l ≡ none)
  unfolding padded_bytes padding_for
  padded_bytes-size l {initial} bare e =
      let plain : K.serialize (record l { padding = [] }) ≡ some initial =
        ground (arith, bare, e) in
      let filling : Bytes = replicate (target_size - length initial - 8) 0 in
      let (b, made, size) = M.size l filling plain in
      let (b', made', size') = M.size l [] plain in
      (
        (λ small. (
          b,
          ground (arith, e, made),
          omega (arith, size, length-replicate {A = ℕ} (target_size - length initial - 8) 0),
        )),
        (λ large. (b', ground (arith, e, made'), omega (arith, size'))),
        λ below above. ground (arith, e),
      )
