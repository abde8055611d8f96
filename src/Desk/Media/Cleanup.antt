-- ===== src/Desk/Media/Cleanup.antt =====
-- What the removal of expired chunks leaves (`cleanup_expired_storage` of
-- alterchat-ui/src-tauri/src/lib.rs).
use alter_chat.Base.{
  String, Bool, true, List, [], ◌∷◌, ◌≡◌, refl, ap, ◌∙◌, sym, subst, arith, map, inl, inr,
  Bool-cases, some, Option-cases,
}
use alter_chat.Base.Equality.{◌==◌, string_eq, ==_refl}
use alter_chat.Base.Member.{any, In, here, there, In-nil, In-cons}
use alter_chat.Int.{ℤ, ltb_ℤ}
use alter_chat.Db.Rows.{ChunkRow}
use alter_chat.Db.Table.{select, delete_where}
use alter_chat.Db.Schema.{Db}
use alter_chat.Db.Nodes.{chunk_is_expired, expired_stored_chunks, delete_stored_chunk}
use alter_chat.Desk.Media.{delete_chunks, cleanup_expired_storage}

-- Whether a row has the hash of one that is to go.
abbrev pub is_listed : List (String × String) → ChunkRow → Bool
is_listed expired r = any (λ e. r.chunk_hash == e.0) expired

delete_where-none : (t : List ChunkRow) → delete_where (is_listed []) t ≡ t
unfolding delete_where select
delete_where-none [] = refl
delete_where-none (r ∷ t) = ap (λ rest. r ∷ rest) (delete_where-none t)

delete_where-delete_where :
    (chunk_hash path : String) (expired : List (String × String)) (t : List ChunkRow)
    → delete_where (is_listed expired) (delete_where (λ r. r.chunk_hash == chunk_hash) t)
      ≡ delete_where (is_listed ((chunk_hash, path) ∷ expired)) t
unfolding delete_where select
delete_where-delete_where chunk_hash path expired [] = refl
delete_where-delete_where chunk_hash path expired (r ∷ t) =
    ground (arith, delete_where-delete_where chunk_hash path expired t)

-- The deletions, one after another, are one.
delete_chunks_lem :
    (expired : List (String × String)) (db : Db)
    → delete_chunks expired db
      ≡ record db { stored_chunks = delete_where (is_listed expired) db.stored_chunks }
unfolding delete_chunks delete_stored_chunk
delete_chunks_lem [] db =
    ap (λ t. record db { stored_chunks = t }) (sym (delete_where-none db.stored_chunks))
delete_chunks_lem ((chunk_hash, path) ∷ expired) db =
    delete_chunks_lem expired (delete_stored_chunk chunk_hash db)
    ∙ ap (λ t. record db { stored_chunks = t })
        (delete_where-delete_where chunk_hash path expired db.stored_chunks)

module _ (now : ℤ) where
  abbrev listed : List ChunkRow → List (String × String)
  listed t = map (λ r. (r.chunk_hash, r.path)) (select (chunk_is_expired now) t)

  -- Every expired row of the table is listed.
  unfoldable AllListed : List (String × String) → List ChunkRow → Type 0
  AllListed expired [] = Unit {0}
  AllListed expired (r ∷ t) =
      (chunk_is_expired now r ≡ true → is_listed expired r ≡ true) × AllListed expired t

  AllListed-cons :
      (e : String × String) (expired : List (String × String)) (t : List ChunkRow)
      → AllListed expired t
      → AllListed (e ∷ expired) t
  unfolding AllListed
  AllListed-cons e expired [] h = tt
  AllListed-cons e expired (r ∷ t) (h, rest) =
      ((λ gone. ground (arith, h gone)), AllListed-cons e expired t rest)

  listed-AllListed : (t : List ChunkRow) → AllListed (listed t) t
  unfolding AllListed select
  listed-AllListed [] = tt
  listed-AllListed (r ∷ t) = elim (Bool-cases (chunk_is_expired now r)) [
    | inl gone ↦
        subst (λ es. AllListed es (r ∷ t)) {x = (r.chunk_hash, r.path) ∷ listed t}
          (ground (arith, gone))
          (
            (λ _. ground (arith, ==_refl r.chunk_hash)),
            AllListed-cons (r.chunk_hash, r.path) (listed t) t (listed-AllListed t),
          )
    | inr kept ↦
        subst (λ es. AllListed es (r ∷ t)) {x = listed t} (ground (arith, kept))
          ((λ gone. absurd (ground (arith, gone, kept))), listed-AllListed t)
  ]

  select-delete_where :
      (expired : List (String × String)) (t : List ChunkRow)
      → AllListed expired t
      → select (chunk_is_expired now) (delete_where (is_listed expired) t) ≡ []
  unfolding AllListed select delete_where
  select-delete_where expired [] h = refl
  select-delete_where expired (r ∷ t) (h, rest) = elim (Bool-cases (chunk_is_expired now r)) [
    | inl gone ↦ ground (arith, gone, h gone, select-delete_where expired t rest)
    | inr kept ↦ ground (arith, kept, select-delete_where expired t rest)
  ]

-- The time of a row is over.
pub IsExpired : ℤ → ChunkRow → Type 0
IsExpired now r = (expires : ℤ) × (r.expires_at ≡ some expires) × (ltb_ℤ expires now ≡ true)

chunk_is_expired-eq-true :
    (now : ℤ) (r : ChunkRow)
    → (chunk_is_expired now r ≡ true → IsExpired now r)
      × (IsExpired now r → chunk_is_expired now r ≡ true)
unfolding IsExpired chunk_is_expired
chunk_is_expired-eq-true now r = elim (Option-cases r.expires_at) [
  | inl none_left ↦ (
    (λ h. absurd (ground (arith, h, none_left))),
    λ (expires, e, over). absurd (ground (arith, e, none_left)),
  )
  | inr (t, is) ↦
      ((λ h. (t, is, ground (arith, h, is))), λ (expires, e, over). ground (arith, e, over))
]

module _ (now : ℤ) where
  -- The rows of the list are those of the table that are expired.
  In-listed :
      (e : String × String) (t : List ChunkRow)
      → In e (listed now t)
      → (r : ChunkRow) × In r t × IsExpired now r × ((r.chunk_hash, r.path) ≡ e)
  unfolding select
  In-listed e [] h = absurd (In-nil h)
  In-listed e (r ∷ t) h = elim (Bool-cases (chunk_is_expired now r)) [
    | inl gone ↦
        let h₁ : In e ((r.chunk_hash, r.path) ∷ listed now t) =
          subst (In e) {x = listed now (r ∷ t)} (ground (arith, gone)) h in
        elim (In-cons h₁) [
          | inl same ↦ (r, here, (chunk_is_expired-eq-true now r).0 gone, sym same)
          | inr tail ↦ let (r', m, over, same) = In-listed e t tail in (r', there m, over, same)
        ]
    | inr kept ↦
        let h₁ : In e (listed now t) =
          subst (In e) {x = listed now (r ∷ t)} (ground (arith, kept)) h in
        let (r', m, over, same) = In-listed e t h₁ in (r', there m, over, same)
  ]

  listed-In :
      (r : ChunkRow) (t : List ChunkRow)
      → In r t
      → IsExpired now r
      → In (r.chunk_hash, r.path) (listed now t)
  unfolding select
  listed-In r [] h over = absurd (In-nil h)
  listed-In r (r' ∷ t) h over = elim (In-cons h) [
    | inl same ↦
        let gone =
          subst (λ q. chunk_is_expired now q ≡ true) same
            ((chunk_is_expired-eq-true now r).1 over) in
        subst (In (r.chunk_hash, r.path)) {x = (r'.chunk_hash, r'.path) ∷ listed now t}
          (ground (arith, gone))
          (subst (λ q. In (r.chunk_hash, r.path) ((q.chunk_hash, q.path) ∷ listed now t)) same here)
    | inr tail ↦
        let rest = listed-In r t tail over in
        elim (Bool-cases (chunk_is_expired now r')) [
          | inl gone ↦
              subst (In (r.chunk_hash, r.path)) {x = (r'.chunk_hash, r'.path) ∷ listed now t}
                (ground (arith, gone)) (there rest)
          | inr kept ↦
              subst (In (r.chunk_hash, r.path)) {x = listed now t} (ground (arith, kept)) rest
        ]
  ]

-- The removal of expired chunks gives back the hashes and paths of exactly the rows of the table
-- whose time is over; none of these is left; a row goes if it has the hash of one that is given
-- back, and nothing else changes.
pub cleanup_expired_storage_lem :
    (now : ℤ) (db : Db)
    → let (files, after) = cleanup_expired_storage now db in
      ((e : String × String)
        → In e files
        → (r : ChunkRow) × In r db.stored_chunks × IsExpired now r × ((r.chunk_hash, r.path) ≡ e))
      × ((r : ChunkRow) → In r db.stored_chunks → IsExpired now r → In (r.chunk_hash, r.path) files)
      × ((r : ChunkRow) → In r after.stored_chunks → ¬ IsExpired now r)
      × (after ≡ record db { stored_chunks = delete_where (is_listed files) db.stored_chunks })
unfolding cleanup_expired_storage expired_stored_chunks
cleanup_expired_storage_lem now db =
    let same = delete_chunks_lem (listed now db.stored_chunks) db in
    let none_left =
      ap (λ (d : Db). listed now d.stored_chunks) same
      ∙ ap (map (λ r. (r.chunk_hash, r.path))) (
          select-delete_where now (listed now db.stored_chunks) db.stored_chunks
            (listed-AllListed now db.stored_chunks)) in
    (
      (λ e h. In-listed now e db.stored_chunks h),
      (λ r m over. listed-In now r db.stored_chunks m over),
      (λ r m over. In-nil (
          subst (In (r.chunk_hash, r.path)) none_left
            (listed-In now r (cleanup_expired_storage now db).1.stored_chunks m over))),
      same,
    )
