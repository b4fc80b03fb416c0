-- ===== src/Access/Agreement.antt =====
-- The actions of a caller, before the limits of the organization, against the effective permission.
use mathlib.Core.Option
use chicoree.Prelude.{
  ◌≡◌, ◌≢◌, refl, Bool, true, false, ◌||◌, ◌&&◌, Option, none, some, List, [], ◌∷◌, inl, inr,
  Option-cases, Bool-cases, Str, str, str_eq, is_empty, arith,
}
use chicoree.Roles.{
  RegistryAction, pull, push, delete, includes_action, OrgRole, owner, member, viewer, org_role,
  role_registry_actions, RepoPermission, permission_from_role, permission_of_role, max_permission,
  permission_at_least,
}
use chicoree.TokenPolicy.{restriction_allows}
use chicoree.Database.{Database, Organization, Repository, Member, membership}
use chicoree.Access.{
  raise, or_public, is_pull, member_actions, raise_by_grant, member_baseline, granted_permission,
  UserCaller, user_caller, caller_actions, effective_permission,
}

-- The permission that an action of the registry needs.
abbrev pub needed : RegistryAction → RepoPermission
needed pull = RepoPermission.pull
needed push = RepoPermission.push
needed delete = RepoPermission.admin

abbrev pub is_public : Option Str → Bool
is_public none = false
is_public (some visibility) = str_eq visibility (str "public")

raise_lem :
    (r : OrgRole) (granted : Option RepoPermission) (a : RegistryAction) (visibility : Option Str)
    → includes_action (or_public (raise (role_registry_actions r) granted) visibility) a ≡ (
        permission_at_least (max_permission (permission_of_role (some r)) granted) (needed a)
        || (is_pull a && is_public visibility))
unfolding includes_action or_public raise role_registry_actions permission_at_least max_permission
    permission_of_role
raise_lem owner granted a visibility = ground arith
raise_lem OrgRole.admin granted a visibility = ground arith
raise_lem member granted a visibility = ground arith
raise_lem viewer granted a visibility = ground arith

role_lem :
    (r : OrgRole) (a : RegistryAction) (visibility : Option Str)
    → includes_action (or_public (role_registry_actions r) visibility) a ≡ (
        permission_at_least (permission_of_role (some r)) (needed a)
        || (is_pull a && is_public visibility))
unfolding includes_action or_public role_registry_actions permission_at_least permission_of_role
role_lem owner a visibility = ground arith
role_lem OrgRole.admin a visibility = ground arith
role_lem member a visibility = ground arith
role_lem viewer a visibility = ground arith

known_role : (s : Str) {r : OrgRole} → org_role s ≡ some r → is_empty s ≡ false
unfolding org_role
known_role [] e = cc
known_role (c ∷ s) e = refl

-- The formula for both sides.
abbrev Fits : List RegistryAction → Option RepoPermission → Option Str → RegistryAction → Type 0
Fits allowed permission visibility a =
    includes_action allowed a
    ≡ (permission_at_least permission (needed a) || (is_pull a && is_public visibility))

no_member :
    (visibility : Option Str) (a : RegistryAction)
    → Fits (or_public [] visibility) none visibility a
unfolding includes_action or_public permission_at_least
no_member visibility a = ground arith

module _ (db : Database) (user_id : Str) (visibility : Option Str) (a : RegistryAction) where
  some_member :
      (m : Member) (repo : Option Repository) (r : OrgRole)
      → org_role m.role ≡ some r
      → ((x : Repository) → repo ≡ some x → is_empty x.id ≡ false)
      → Fits
          (or_public (raise_by_grant db user_id (some m) repo (member_actions (some m))) visibility)
          (effective_permission db user_id false (some m.role) (Option.map (λ x. x.id) repo))
          visibility
          a
  unfolding raise_by_grant effective_permission permission_from_role member_actions
  some_member m none r e named = rw e (role_lem r a visibility)
  some_member m (some x) r e named =
      rw (known_role m.role e, named x refl, e)
        (raise_lem r (granted_permission db user_id x.id) a visibility)

  no_member_effective :
      (repo : Option Repository)
      → Fits
          (or_public (raise_by_grant db user_id none repo (member_actions none)) visibility)
          (effective_permission db user_id false none (Option.map (λ x. x.id) repo))
          visibility
          a
  unfolding raise_by_grant effective_permission permission_from_role member_actions
  no_member_effective none = no_member visibility a
  no_member_effective (some x) = no_member visibility a

  any_member :
      (m : Option Member) (repo : Option Repository)
      → ((y : Member) → m ≡ some y → org_role y.role ≢ none)
      → ((x : Repository) → repo ≡ some x → is_empty x.id ≡ false)
      → Fits
          (or_public (raise_by_grant db user_id m repo (member_actions m)) visibility)
          (effective_permission db user_id false
            (Option.map (λ y. y.role) m)
            (Option.map (λ x. x.id) repo))
          visibility
          a
  any_member none repo known named = no_member_effective repo
  any_member (some m) repo known named = elim (Option-cases (org_role m.role)) [
    | inl e ↦ absurd (known m refl e)
    | inr (r, e) ↦ some_member m repo r e named
  ]

module _ (db : Database) (user_id : Str) (org : Organization) (repo : Option Repository)
    (visibility : Option Str) where
  member_baseline-effective_permission :
      ((m : Member) → membership db org.id user_id ≡ some m → org_role m.role ≢ none)
      → ((r : Repository) → repo ≡ some r → is_empty r.id ≡ false)
      → (a : RegistryAction)
      → includes_action (member_baseline db user_id org repo visibility) a ≡ (
          permission_at_least
            (effective_permission db user_id false
              (Option.map (λ m. m.role) (membership db org.id user_id))
              (Option.map (λ r. r.id) repo))
            (needed a)
          || (is_pull a && is_public visibility))
  unfolding member_baseline
  member_baseline-effective_permission known named a =
      any_member db user_id visibility a (membership db org.id user_id) repo known named

all_lem :
    (a : RegistryAction) (b : Bool)
    → includes_action (pull ∷ push ∷ delete ∷ []) a
      ≡ (permission_at_least (some RepoPermission.admin) (needed a) || (is_pull a && b))
unfolding includes_action permission_at_least
all_lem a b = ground arith

admin_effective :
    (db : Database) (user_id : Str) (role repository_id : Option Str)
    → effective_permission db user_id true role repository_id ≡ some RepoPermission.admin
unfolding effective_permission
admin_effective db user_id role repository_id = refl

-- For a credential without limits, and a member whose role is one of the four or no member.
pub caller_actions-effective_permission :
    (db : Database) (c : UserCaller) (org : Organization) (repo : Option Repository)
    (visibility : Option Str)
    → c.pat_scope ≡ none
    → c.restriction ≡ none
    → ((m : Member) → membership db org.id c.user_id ≡ some m → org_role m.role ≢ none)
    → ((r : Repository) → repo ≡ some r → is_empty r.id ≡ false)
    → (a : RegistryAction)
    → includes_action (caller_actions db (user_caller c) org repo visibility) a ≡ (
        permission_at_least
          (effective_permission db c.user_id c.is_admin
            (Option.map (λ m. m.role) (membership db org.id c.user_id))
            (Option.map (λ r. r.id) repo))
          (needed a)
        || (is_pull a && is_public visibility))
unfolding caller_actions restriction_allows
caller_actions-effective_permission db c org repo visibility unscoped free known named a =
    elim (Bool-cases c.is_admin) [
      | inl e ↦ rw (free, unscoped, e) (rw admin_effective (all_lem a (is_public visibility)))
      | inr e ↦
          rw (free, unscoped, e)
            (member_baseline-effective_permission db c.user_id org repo visibility known named a)
    ]
