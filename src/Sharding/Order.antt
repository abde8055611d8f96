-- ===== src/Sharding/Order.antt =====
-- Sorting shards that came in any order (alterchat-core/src/sharding.rs).
use alter_chat.Base.Member.{In, here, there}
use alter_chat.Base.{ℕ, suc, ◌≤◌, ◌≡◌, refl, sym, ap, ◌∙◌, ◌≢◌, List, [], ◌∷◌, arith, ℕ_discrete}
use alter_chat.Sharding.{Shard, insert_shard, sort_by_index}

-- `xs` in another order.
pub data Perm : List Shard → List Shard → Type 0 where
  none_left : Perm [] []
  keep : {s : Shard} {xs ys : List Shard} → Perm xs ys → Perm (s ∷ xs) (s ∷ ys)
  swap : {s t : Shard} {xs : List Shard} → Perm (s ∷ t ∷ xs) (t ∷ s ∷ xs)
  after : {xs ys zs : List Shard} → Perm xs ys → Perm ys zs → Perm xs zs

-- All indices are at least `n`, and they grow.
abbrev pub IsSortedFrom : ℕ → List Shard → Type 0
IsSortedFrom n [] = Unit
IsSortedFrom n (s ∷ ss) = (n ≤ s.index) × IsSortedFrom (suc s.index) ss

-- No two shards share an index.
abbrev IsDetermined : List Shard → Type 0
IsDetermined xs = (s t : Shard) → In s xs → In t xs → s.index ≡ t.index → s ≡ t

In-of_perm : {xs ys : List Shard} → Perm xs ys → {s : Shard} → In s ys → In s xs
In-of_perm none_left m = elim m [ ]
In-of_perm (keep p) here = here
In-of_perm (keep p) (there m) = there (In-of_perm p m)
In-of_perm swap here = there here
In-of_perm swap (there here) = here
In-of_perm swap (there (there m)) = there (there m)
In-of_perm (after p q) m = In-of_perm p (In-of_perm q m)

index_from : {n : ℕ} (xs : List Shard) {s : Shard} → IsSortedFrom n xs → In s xs → n ≤ s.index
index_from [] h m = elim m [ ]
index_from (x ∷ xs) h here = h.0
index_from (x ∷ xs) h (there m) = omega (arith, h.0, index_from xs h.1 m)

sorted-IsDetermined : (n : ℕ) (xs : List Shard) → IsSortedFrom n xs → IsDetermined xs
sorted-IsDetermined n [] h s t m m' e = elim m [ ]
sorted-IsDetermined n (x ∷ xs) h s t here here e = refl
sorted-IsDetermined n (x ∷ xs) h s t here (there m) e =
    absurd (omega (arith, index_from xs h.1 m, e))
sorted-IsDetermined n (x ∷ xs) h s t (there m) here e =
    absurd (omega (arith, index_from xs h.1 m, e))
sorted-IsDetermined n (x ∷ xs) h s t (there m) (there m') e =
    sorted-IsDetermined (suc x.index) xs h.1 s t m m' e

insert_shard_comm :
    (s t : Shard) (xs : List Shard)
    → (s.index ≡ t.index → s ≡ t)
    → insert_shard s (insert_shard t xs) ≡ insert_shard t (insert_shard s xs)
unfolding insert_shard
insert_shard_comm s t xs h = elim (ℕ_discrete s.index t.index) [
  | yes e ↦
      ap (λ r. insert_shard r (insert_shard t xs)) (h e)
      ∙ ap (λ r. insert_shard t (insert_shard r xs)) (sym (h e))
  | no n ↦ apart xs n
]
  where
    apart :
        (xs : List Shard)
        → s.index ≢ t.index
        → insert_shard s (insert_shard t xs) ≡ insert_shard t (insert_shard s xs)
    apart [] n = ground arith
    apart (x ∷ xs) n = ground (arith, apart xs n)

sort_by_index_of_perm :
    {xs ys : List Shard} → Perm xs ys → IsDetermined xs → sort_by_index ys ≡ sort_by_index xs
unfolding sort_by_index
sort_by_index_of_perm none_left d = refl
sort_by_index_of_perm (keep {s = s} p) d =
    ap (insert_shard s) (sort_by_index_of_perm p (λ a b m m' e. d a b (there m) (there m') e))
sort_by_index_of_perm (swap {s = s} {t = t} {xs = xs}) d =
    insert_shard_comm t s (sort_by_index xs) (λ e. d t s (there here) here e)
sort_by_index_of_perm (after p q) d =
    sort_by_index_of_perm q (λ a b m m' e. d a b (In-of_perm p m) (In-of_perm p m') e)
    ∙ sort_by_index_of_perm p d

pub sort_by_index_sorted : (n : ℕ) (xs : List Shard) → IsSortedFrom n xs → sort_by_index xs ≡ xs
unfolding sort_by_index insert_shard
sort_by_index_sorted n [] h = refl
sort_by_index_sorted n (x ∷ []) h = refl
sort_by_index_sorted n (x ∷ y ∷ ys) h =
    ap (insert_shard x) (sort_by_index_sorted (suc x.index) (y ∷ ys) h.1) ∙ ground (arith, h.1.0)

-- Shards whose indices grow come out of the sort in that order, whatever order they went in.
pub sort_by_index-perm :
    (n : ℕ) {xs ys : List Shard} → Perm xs ys → IsSortedFrom n xs → sort_by_index ys ≡ xs
sort_by_index-perm n {xs = xs} p h =
    sort_by_index_of_perm p (sorted-IsDetermined n xs h) ∙ sort_by_index_sorted n xs h
