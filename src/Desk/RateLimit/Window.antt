-- ===== src/Desk/RateLimit/Window.antt =====
-- No minute has more requests of a peer than the limit allows (`rate_limit_allows` of
-- alterchat-ui/src-tauri/src/lib.rs).
use alter_chat.Base.{
  inl, inr, Bool-cases, String, ◌≢◌, sym, subst, ℕ, ◌≤◌, List, [], ◌∷◌, ◌++◌, ◌≡◌, refl, arith,
  length, if◌then◌else◌,
}
use alter_chat.Int.{ℤ, pos}
use alter_chat.Desk.RateLimit.{Buckets, limit_of, visit, rate_limit_allows}
use alter_chat.Base.Dict.{lookup, lookup-insert}
use alter_chat.Base.Equality.{string_eq, ==_refl, ==_sound, ◌==◌}
use alter_chat.Desk.RateLimit.Bucket.{
  IsTime, recent, kept_recent, AreTimes, AreTimes-visit, recent-visit, length-visit,
  kept_recent-length,
}
use mathlib.Core.Option

abbrev bucket_of : String → Buckets → List ℤ
bucket_of peer_id buckets = Option.get_or (lookup peer_id buckets) []

-- Calls at times that never go back, those for one peer with one limit and any for other peers: the
-- time of the last one, the times at which the peer was let through, and the buckets.
pub data Calls (peer_id : String) (per_minute : ℤ) : ℕ → List ℕ → Buckets → Type 0 where
  first : Calls peer_id per_minute 0 [] []
  call :
      {t : ℕ} {granted : List ℕ} {buckets : Buckets} (now : ℕ)
      → Calls peer_id per_minute t granted buckets
      → t ≤ now
      → IsTime now
      → Calls peer_id per_minute now
          (if (rate_limit_allows (pos now) peer_id per_minute buckets).0
            then granted ++ now ∷ []
            else granted)
          (rate_limit_allows (pos now) peer_id per_minute buckets).1
  other :
      {t : ℕ} {granted : List ℕ} {buckets : Buckets} (now : ℕ) (peer : String) (limit : ℤ)
      → Calls peer_id per_minute t granted buckets
      → t ≤ now
      → peer_id ≢ peer
      → Calls peer_id per_minute now granted (rate_limit_allows (pos now) peer limit buckets).1

-- What holds of the calls up to a time.
record Follows (per_minute : ℤ) (t : ℕ) (granted : List ℕ) (bucket : List ℤ) : Type 0 where
  times : AreTimes bucket
  bounded : length bucket ≤ limit_of per_minute
  same : (u : ℕ) → t ≤ u → IsTime u → recent u granted ≡ kept_recent u bucket

bucket_of-rate_limit_allows :
    (now per_minute : ℤ) (peer_id : String) (buckets : Buckets)
    → bucket_of peer_id (rate_limit_allows now peer_id per_minute buckets).1
      ≡ (visit now per_minute (bucket_of peer_id buckets)).1
unfolding rate_limit_allows
bucket_of-rate_limit_allows now per_minute peer_id buckets = ground (
  arith,
  lookup-insert peer_id peer_id (visit now per_minute (bucket_of peer_id buckets)).1 buckets,
  ==_refl peer_id,
)

bucket_of_other :
    (now limit : ℤ) (peer_id peer : String) (buckets : Buckets)
    → peer_id ≢ peer
    → bucket_of peer_id (rate_limit_allows now peer limit buckets).1 ≡ bucket_of peer_id buckets
unfolding rate_limit_allows
bucket_of_other now limit peer_id peer buckets differ = elim (Bool-cases (peer_id == peer)) [
  | inl same ↦ absurd (differ (==_sound {a = peer_id} {b = peer} same))
  | inr new ↦
      ground (
        arith,
        lookup-insert peer_id peer (visit now limit (bucket_of peer buckets)).1 buckets,
        new,
      )
]

Calls-Follows :
    (peer_id : String) (per_minute : ℤ) {t : ℕ} {granted : List ℕ} {buckets : Buckets}
    → Calls peer_id per_minute t granted buckets
    → Follows per_minute t granted (bucket_of peer_id buckets)
unfolding recent kept_recent lookup rate_limit_allows
Calls-Follows peer_id per_minute first = record {
  times = tt;
  bounded = omega arith;
  same = λ u le hu. refl;
}
Calls-Follows peer_id per_minute (call {t} {granted} {buckets} now calls le h) =
    let f = Calls-Follows peer_id per_minute calls in
    let bucket = bucket_of peer_id buckets in
    subst
      (Follows per_minute now
        (if (visit (pos now) per_minute bucket).0 then granted ++ now ∷ [] else granted))
      (sym (bucket_of-rate_limit_allows (pos now) per_minute peer_id buckets))
      (record {
        times = AreTimes-visit now per_minute bucket h f.times;
        bounded = length-visit (pos now) per_minute bucket f.bounded;
        same = λ u le' hu.
            recent-visit now u per_minute granted bucket le' hu f.times (f.same u (omega arith) hu);
      })
Calls-Follows peer_id per_minute (other {t} {granted} {buckets} now peer limit calls le differ) =
    let f = Calls-Follows peer_id per_minute calls in
    subst (Follows per_minute now granted)
      (sym (bucket_of_other (pos now) limit peer_id peer buckets differ))
      (record {
        times = f.times;
        bounded = f.bounded;
        same = λ u le' hu. f.same u (omega arith) hu;
      })

-- If the clock does not go back, then at every later time at most `per_minute` requests of a peer,
-- or one if that is less than 1, were let through in the minute before that time, whatever requests
-- of other peers came in between.
pub recent-limit_of :
    (peer_id : String) (per_minute : ℤ) (t u : ℕ) (granted : List ℕ) (buckets : Buckets)
    → Calls peer_id per_minute t granted buckets
    → t ≤ u
    → IsTime u
    → recent u granted ≤ limit_of per_minute
recent-limit_of peer_id per_minute t u granted buckets calls le h =
    let f = Calls-Follows peer_id per_minute calls in
    ground (arith, f.same u le h, f.bounded, kept_recent-length u (bucket_of peer_id buckets))
