-- ===== src/Desk/RateLimit.antt =====
-- The limit on the requests of a peer (`rate_limit_allows` of alterchat-ui/src-tauri/src/lib.rs). The
-- time of `current_millis` is an argument, and a difference of times wraps as an `i64`.
pub mod Bucket
pub mod Window
use alter_chat.Base.{
  ℕ, String, Bool, true, false, List, [], ◌∷◌, ◌++◌, Option, length, leb, if◌then◌else◌,
}
use mathlib.Core.Option
use alter_chat.Base.Dict.{Dict, lookup, insert}
use alter_chat.Base.Equality.{string_eq}
use alter_chat.Int.{ℤ, pos, pos_part, ◌-ℤ◌, ltb_ℤ, i64}

-- The times of the requests that were let through, the oldest first.
abbrev pub Buckets : Type 0
Buckets = Dict String (List ℤ)

-- `now - *ts > 60_000`
unfoldable pub is_old : ℤ → ℤ → Bool
is_old now ts = ltb_ℤ (pos 60_000) (i64 (now -ℤ ts))

-- The loop that pops old times off the front.
unfoldable pub pop_old : ℤ → List ℤ → List ℤ
pop_old now [] = []
pop_old now (ts ∷ bucket) =
    let rest = pop_old now bucket in if is_old now ts then rest else ts ∷ bucket

-- `per_minute.max(1) as usize`
unfoldable pub limit_of : ℤ → ℕ
limit_of per_minute = if ltb_ℤ per_minute (pos 1) then 1 else pos_part per_minute

-- What one call does to the bucket of its peer.
unfoldable pub visit : ℤ → ℤ → List ℤ → Bool × List ℤ
visit now per_minute bucket =
    let kept = pop_old now bucket in
    if leb (limit_of per_minute) (length kept) then (false, kept) else (true, kept ++ now ∷ [])

unfoldable pub rate_limit_allows : ℤ → String → ℤ → Buckets → Bool × Buckets
rate_limit_allows now peer_id per_minute buckets =
    let (allowed, bucket) = visit now per_minute (Option.get_or (lookup peer_id buckets) []) in
    (allowed, insert peer_id bucket buckets)
