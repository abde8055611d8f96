-- ===== src/Governance/Permissions.antt =====
-- What `has_permission` says (alterchat-core/src/governance.rs), and what the default roles allow.
use alter_chat.Base.Result.{Result, ok, err, is_ok}
use alter_chat.Base.Member.{any, In, any_of_In, In-of_any}
use alter_chat.Base.Equality.{◌==◌, bytes_eq, string_eq, ==_of_eq, ==_refl, ==_sound}
use alter_chat.Base.{
  ◌∙◌, ℕ, [], ◌∷◌, leb, if◌then◌else◌, ap, Option, none, String, ◌≡◌, refl, subst, ◌↔◌, Bool, true,
  false, ◌&&◌, some, List, arith,
}
use mathlib.Core.Option
use alter_chat.Signer.{IsLawful, Signer}
use alter_chat.Int.{leb_ℤ, ℤ, ◌≤ℤ◌}
use alter_chat.Governance.Types.{
  PermissionGrant, Role, Permission, Codec, permission_eq, read, write, invite, send_file,
  start_call, moderate_local, manage_roles,
}
use alter_chat.Governance.Authentic.{verify_permission_grant-create_permission_grant}
use alter_chat.Governance.Tokens.{create_permission_grant, verify_permission_grant}
use alter_chat.Governance.Access.{
  default_roles, role_allows, grant_is_current, grant_allows, has_permission,
}

-- `grant` makes `peer_id` the holder of `role`, which has the permission, at the time `now`.
pub record Entitles (S : Signer) (K : Codec) (peer_id : String) (permission : Permission) (now : ℤ)
    (grant : PermissionGrant) (role : Role) : Type 0 where
  pub subject : grant.subject_peer_id ≡ peer_id
  pub genuine : verify_permission_grant S K grant ≡ ok tt
  pub current : (t : ℤ) → grant.expires_at ≡ some t → now ≤ℤ t
  pub same_room : role.room_id ≡ grant.room_id
  pub same_role : role.role_id ≡ grant.role_id
  pub listed : In permission role.permissions

and_split : (a b : Bool) → (a && b) ≡ true → (a ≡ true) × (b ≡ true)
and_split true b h = (refl, h)
and_split false b h = ground arith

and_join : {a b : Bool} → a ≡ true → b ≡ true → (a && b) ≡ true
and_join h h' = ground arith

is_ok-true : (r : Result (Unit {0})) → is_ok r ≡ true → r ≡ ok tt
is_ok-true (ok tt) h = refl
is_ok-true (err e) h = ground arith

current_some :
    (expires_at : Option ℤ) (now : ℤ)
    → Option.get_or (Option.map (λ expires. leb_ℤ now expires) expires_at) true ≡ true
      ↔ ((t : ℤ) → expires_at ≡ some t → now ≤ℤ t)
current_some none now = ((λ h t e. ground arith), λ h. refl)
current_some (some t) now = ((λ h u e. ground arith), λ h. ground (arith, h t refl))

current_iff :
    (grant : PermissionGrant) (now : ℤ)
    → grant_is_current grant now ≡ true ↔ ((t : ℤ) → grant.expires_at ≡ some t → now ≤ℤ t)
unfolding grant_is_current
current_iff grant now = current_some grant.expires_at now

module _ (S : Signer) (K : Codec) where
  -- `has_permission` is true exactly if some grant of the list entitles the peer to the
  -- permission through some role of the list.
  pub has_permission_iff :
      (grants : List PermissionGrant) (roles : List Role) (peer_id : String)
      (permission : Permission) (now : ℤ)
      → has_permission S K grants roles peer_id permission now ≡ true ↔ (
          (grant : PermissionGrant) × In grant grants
          × (role : Role) × In role roles
          × Entitles S K peer_id permission now grant role)
  unfolding has_permission grant_allows role_allows
  has_permission_iff grants roles peer_id permission now = (
    (λ h.
        let (grant, m, e) = In-of_any _ grants h in
        let (subject, e₁) = and_split _ _ e in
        let (genuine, e₂) = and_split _ _ e₁ in
        let (current, e₃) = and_split _ _ e₂ in
        let (role, m', e₄) = In-of_any _ roles e₃ in
        let (same_room, e₅) = and_split _ _ e₄ in
        let (same_role, e₆) = and_split _ _ e₅ in
        let (p, m'', e₇) = In-of_any _ role.permissions e₆ in
        (
          grant,
          m,
          role,
          m',
          record {
            subject = ==_sound subject;
            genuine = is_ok-true _ genuine;
            current = (current_iff grant now).0 current;
            same_room = ==_sound same_room;
            same_role = ==_sound same_role;
            listed = subst (λ q. In q role.permissions) (==_sound e₇) m'';
          },
        )),
    λ (grant, m, role, m', E). any_of_In _ m (
        and_join (==_of_eq E.subject) (
          and_join (ap is_ok E.genuine) (
            and_join ((current_iff grant now).1 E.current) (
              any_of_In _ m' (
                and_join (==_of_eq E.same_room) (
                  and_join (==_of_eq E.same_role) (any_of_In _ E.listed (==_refl permission)))))))),
  )

-- How high in the order guest, member, owner a role must stand to have a permission, and where a
-- role stands; `none` is a role that is none of the three.
abbrev pub rank_needed : Permission → ℕ
rank_needed read = 0
rank_needed write = 1
rank_needed invite = 1
rank_needed send_file = 1
rank_needed start_call = 1
rank_needed moderate_local = 2
rank_needed manage_roles = 2

abbrev pub rank : String → Option ℕ
rank role_id =
    if "owner" == role_id
    then some 2
    else if "member" == role_id
    then some 1
    else if "guest" == role_id
    then some 0
    else none

abbrev pub rank_allows : Option ℕ → Permission → Bool
rank_allows none p = false
rank_allows (some r) p = leb (rank_needed p) r

owner_rank :
    (role_id : String) (p : Permission) → role_id ≡ "owner" → rank_allows (rank role_id) p ≡ true
unfolding string_eq
owner_rank role_id p h = ap (λ r. rank_allows (rank r) p) h ∙ highest p
  where
    highest : (p : Permission) → rank_allows (some 2) p ≡ true
    highest read = refl
    highest write = refl
    highest invite = refl
    highest send_file = refl
    highest start_call = refl
    highest moderate_local = refl
    highest manage_roles = refl

default_roles-rank :
    (grant : PermissionGrant) (p : Permission)
    → any (role_allows grant p) (default_roles grant.room_id) ≡ rank_allows (rank grant.role_id) p
unfolding default_roles role_allows
default_roles-rank grant read = ground (arith, ==_refl grant.room_id)
default_roles-rank grant write = ground (arith, ==_refl grant.room_id)
default_roles-rank grant invite = ground (arith, ==_refl grant.room_id)
default_roles-rank grant send_file = ground (arith, ==_refl grant.room_id)
default_roles-rank grant start_call = ground (arith, ==_refl grant.room_id)
default_roles-rank grant moderate_local = ground (arith, ==_refl grant.room_id)
default_roles-rank grant manage_roles = ground (arith, ==_refl grant.room_id)

module _ (S : Signer) (K : Codec) where
  -- In a room with the default roles, one genuine and current grant gives its subject the
  -- permissions that the rank of the granted role is high enough for, and no others.
  pub has_permission-default_roles :
      (grant : PermissionGrant) (p : Permission) (now : ℤ)
      → verify_permission_grant S K grant ≡ ok tt
      → grant_is_current grant now ≡ true
      → has_permission S K (grant ∷ []) (default_roles grant.room_id) grant.subject_peer_id p now
        ≡ rank_allows (rank grant.role_id) p
  unfolding has_permission grant_allows
  has_permission-default_roles grant p now genuine current =
      ground (arith, genuine, current, ==_refl grant.subject_peer_id, default_roles-rank grant p)

  owner_may :
      (grant : PermissionGrant) (p : Permission) (now : ℤ) (others : List PermissionGrant)
      → verify_permission_grant S K grant ≡ ok tt
      → grant.expires_at ≡ none
      → grant.role_id ≡ "owner"
      → has_permission S K
          (grant ∷ others)
          (default_roles grant.room_id)
          grant.subject_peer_id
          p
          now
        ≡ true
  unfolding has_permission grant_allows grant_is_current
  owner_may grant p now others genuine never role = ground (
    arith,
    genuine,
    never,
    ==_refl grant.subject_peer_id,
    default_roles-rank grant p,
    owner_rank grant.role_id p role,
  )

  -- Whoever has a key can make a grant that gives its own peer id every permission of a room with
  -- the default roles, whatever the other grants are: nothing asks who the issuer is.
  pub has_permission-self_grant :
      (L : IsLawful S) (k : S.Keypair) (issued_at now : ℤ) (room_id : String) (p : Permission)
      (others : List PermissionGrant) {grant : PermissionGrant}
      → create_permission_grant S K k issued_at room_id (S.peer_id (S.public k)) "owner" none
        ≡ ok grant
      → has_permission S K (grant ∷ others) (default_roles room_id) (S.peer_id (S.public k)) p now
        ≡ true
  has_permission-self_grant L k issued_at now room_id p others {grant} h =
      let (genuine, room, subject, role, never, issuer) =
        verify_permission_grant-create_permission_grant S L K k issued_at room_id
          (S.peer_id (S.public k)) "owner" none h in
      subst
        (λ r.
          has_permission S K (grant ∷ others) (default_roles r) (S.peer_id (S.public k)) p now
          ≡ true)
        room
        (subst
          (λ q. has_permission S K (grant ∷ others) (default_roles grant.room_id) q p now ≡ true)
          subject (owner_may grant p now others genuine never role))
