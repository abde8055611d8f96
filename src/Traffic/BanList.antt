-- ===== src/Traffic/BanList.antt =====
-- The ban list counts failures by peer.
use alter_chat.Base.Equality.{◌==◌, string_eq, bytes_eq}
use alter_chat.Base.{ℕ, zero, suc, ◌+◌, ◌^◌, ◌<◌, String, ◌≡◌, ◌≢◌, arith, leb, if◌then◌else◌, u32}
use alter_chat.Base.Dict.{lookup-insert, lookup-remove_key}
use alter_chat.Traffic.{PowBanList, failure_count, record_failure, is_banned, reset}

-- `n` failures of a peer in a row.
pub fail_times : ℕ → String → ℕ → PowBanList → PowBanList
fail_times zero peer threshold b = b
fail_times (suc n) peer threshold b =
    fail_times n peer threshold (record_failure peer threshold b).0

failure_count-record_failure :
    (peer other : String) (threshold : ℕ) (b : PowBanList)
    → failure_count other (record_failure peer threshold b).0
      ≡ (if other == peer then u32 (failure_count peer b + 1) else failure_count other b)
unfolding record_failure
failure_count-record_failure peer other threshold b =
    ground (arith, lookup-insert other peer (u32 (failure_count peer b + 1)) b.failures)

failure_count-fail_times :
    (n : ℕ) (peer : String) (threshold : ℕ) (b : PowBanList)
    → failure_count peer b + n < 2 ^ 32
    → failure_count peer (fail_times n peer threshold b) ≡ failure_count peer b + n
unfolding fail_times
failure_count-fail_times zero peer threshold b h = omega arith
failure_count-fail_times (suc n) peer threshold b h = ground (
  arith,
  failure_count-record_failure peer peer threshold b,
  failure_count-fail_times n peer threshold (record_failure peer threshold b).0,
)

-- After a reset, a peer is banned exactly when the failures since then reach the threshold.
pub is_banned-fail_times :
    (n : ℕ) (peer : String) (threshold : ℕ) (b : PowBanList)
    → n < 2 ^ 32
    → is_banned peer threshold (fail_times n peer threshold (reset peer b)) ≡ leb threshold n
unfolding is_banned reset
is_banned-fail_times n peer threshold b h = ground (
  arith,
  lookup-remove_key peer peer b.failures,
  failure_count-fail_times n peer threshold (reset peer b),
)

-- A recorded failure reports what `is_banned` then says of the peer, and changes nothing for any
-- other peer.
pub record_failure-is_banned :
    (peer other : String) (threshold t : ℕ) (b : PowBanList)
    → let (b', banned) = record_failure peer threshold b in
      (banned ≡ is_banned peer threshold b')
      × (other ≢ peer → is_banned other t b' ≡ is_banned other t b)
unfolding is_banned record_failure
record_failure-is_banned peer other threshold t b = (
  ground (arith, failure_count-record_failure peer peer threshold b),
  λ ne. ground (arith, failure_count-record_failure peer other threshold b),
)
