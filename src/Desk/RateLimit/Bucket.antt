-- ===== src/Desk/RateLimit/Bucket.antt =====
-- The bucket of one peer (`rate_limit_allows` of alterchat-ui/src-tauri/src/lib.rs): it keeps every
-- request of the last minute that was let through.
use alter_chat.Base.{
  ℕ, suc, ◌+◌, ◌^◌, ◌≤◌, ◌<◌, Bool, true, false, List, [], ◌∷◌, ◌++◌, ◌≡◌, refl, arith, length,
  length-append, leb, ltb, if◌then◌else◌,
}
use alter_chat.Int.{ℤ, pos, negsuc, ◌-ℤ◌, i64}
use alter_chat.Desk.RateLimit.{is_old, pop_old, limit_of, visit}
use alter_chat.Base.Equality.{string_eq}

-- Times of requests, as the clock gives them.
abbrev pub IsTime : ℕ → Type 0
IsTime t = t < 2 ^ 63

is_old-pos :
    (now ts : ℕ) → IsTime now → IsTime ts → is_old (pos now) (pos ts) ≡ ltb (ts + 60_000) now
unfolding is_old i64 ◌-ℤ◌
is_old-pos now ts h k = ground arith

-- How many of the times are at most a minute before a time, or after it.
unfoldable pub recent : ℕ → List ℕ → ℕ
recent now [] = 0
recent now (s ∷ times) =
    let rest = recent now times in if ltb (s + 60_000) now then rest else suc rest

unfoldable pub kept_recent : ℕ → List ℤ → ℕ
kept_recent now [] = 0
kept_recent now (s ∷ bucket) =
    let rest = kept_recent now bucket in if is_old (pos now) s then rest else suc rest

abbrev pub AreTimes : List ℤ → Type 0
AreTimes [] = Unit
AreTimes (pos s ∷ bucket) = IsTime s × AreTimes bucket
AreTimes (negsuc s ∷ bucket) = ⊥

recent-append :
    (u t : ℕ) (times : List ℕ)
    → recent u (times ++ t ∷ [])
      ≡ (if ltb (t + 60_000) u then recent u times else suc (recent u times))
unfolding recent
recent-append u t [] = refl
recent-append u t (s ∷ times) = ground (arith, recent-append u t times)

kept_recent-append :
    (u t : ℕ) (bucket : List ℤ)
    → IsTime u
    → IsTime t
    → kept_recent u (bucket ++ pos t ∷ [])
      ≡ (if ltb (t + 60_000) u then kept_recent u bucket else suc (kept_recent u bucket))
unfolding kept_recent
kept_recent-append u t [] hu ht = ground (arith, is_old-pos u t hu ht)
kept_recent-append u t (s ∷ bucket) hu ht = ground (arith, kept_recent-append u t bucket hu ht)

AreTimes-append :
    (t : ℕ) (bucket : List ℤ) → IsTime t → AreTimes bucket → AreTimes (bucket ++ pos t ∷ [])
AreTimes-append t [] ht a = (ht, tt)
AreTimes-append t (pos s ∷ bucket) ht a = (a.0, AreTimes-append t bucket ht a.1)
AreTimes-append t (negsuc s ∷ bucket) ht a = absurd a

if_AreTimes : (b : Bool) (s t : List ℤ) → AreTimes s → AreTimes t → AreTimes (if b then s else t)
if_AreTimes true s t hs ht = hs
if_AreTimes false s t hs ht = ht

AreTimes-pop_old : (now : ℤ) (bucket : List ℤ) → AreTimes bucket → AreTimes (pop_old now bucket)
unfolding pop_old
AreTimes-pop_old now [] a = tt
AreTimes-pop_old now (pos s ∷ bucket) a =
    if_AreTimes (is_old now (pos s)) (pop_old now bucket) (pos s ∷ bucket)
      (AreTimes-pop_old now bucket a.1) a
AreTimes-pop_old now (negsuc s ∷ bucket) a = absurd a

-- What is popped is older than a minute from then on.
kept_recent-pop_old :
    (t u : ℕ) (bucket : List ℤ)
    → t ≤ u
    → IsTime u
    → AreTimes bucket
    → kept_recent u (pop_old (pos t) bucket) ≡ kept_recent u bucket
unfolding pop_old kept_recent
kept_recent-pop_old t u [] le hu a = refl
kept_recent-pop_old t u (pos s ∷ bucket) le hu a = ground (
  arith,
  is_old-pos t s (omega arith) a.0,
  is_old-pos u s hu a.0,
  kept_recent-pop_old t u bucket le hu a.1,
)
kept_recent-pop_old t u (negsuc s ∷ bucket) le hu a = absurd a

length-pop_old : (now : ℤ) (bucket : List ℤ) → length (pop_old now bucket) ≤ length bucket
unfolding pop_old
length-pop_old now [] = omega arith
length-pop_old now (s ∷ bucket) = ground (arith, length-pop_old now bucket)

pub kept_recent-length : (u : ℕ) (bucket : List ℤ) → kept_recent u bucket ≤ length bucket
unfolding kept_recent
kept_recent-length u [] = omega arith
kept_recent-length u (s ∷ bucket) = ground (arith, kept_recent-length u bucket)

pub length-visit :
    (now per_minute : ℤ) (bucket : List ℤ)
    → length bucket ≤ limit_of per_minute
    → length (visit now per_minute bucket).1 ≤ limit_of per_minute
unfolding visit
length-visit now per_minute bucket h =
    ground (arith, length-pop_old now bucket, length-append (pop_old now bucket) (now ∷ []))

pub AreTimes-visit :
    (now : ℕ) (per_minute : ℤ) (bucket : List ℤ)
    → IsTime now
    → AreTimes bucket
    → AreTimes (visit (pos now) per_minute bucket).1
unfolding visit
AreTimes-visit now per_minute bucket h a =
    let kept = AreTimes-pop_old (pos now) bucket a in
    go (leb (limit_of per_minute) (length (pop_old (pos now) bucket))) kept
      (AreTimes-append now (pop_old (pos now) bucket) h kept)
  where
    go :
        (b : Bool)
        → AreTimes (pop_old (pos now) bucket)
        → AreTimes (pop_old (pos now) bucket ++ pos now ∷ [])
        → (let r : Bool × List ℤ =
              if b
              then (false, pop_old (pos now) bucket)
              else (true, pop_old (pos now) bucket ++ pos now ∷ []) in
            AreTimes r.1)
    go true x y = x
    go false x y = y

pub recent-visit :
    (now u : ℕ) (per_minute : ℤ) (granted : List ℕ) (bucket : List ℤ)
    → now ≤ u
    → IsTime u
    → AreTimes bucket
    → recent u granted ≡ kept_recent u bucket
    → recent u (if (visit (pos now) per_minute bucket).0 then granted ++ now ∷ [] else granted)
      ≡ kept_recent u (visit (pos now) per_minute bucket).1
unfolding visit
recent-visit now u per_minute granted bucket le hu a same = ground (
  arith,
  same,
  recent-append u now granted,
  kept_recent-append u now (pop_old (pos now) bucket) hu (omega arith),
  kept_recent-pop_old now u bucket le hu a,
)
