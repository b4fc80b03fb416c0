-- ===== src/Access/Tokens.antt =====
-- What a token with a scope or a restriction, and a caller from outside the organization, may do.
use mathlib.Core.Option
use chicoree.Prelude.{
  ◌≡◌, refl, subst, Bool, true, false, Option, none, some, List, [], All, Str, str_eq, str_eq_iff,
  arith, if◌then◌else◌,
}
use chicoree.Roles.{RegistryAction, pull, push, delete, includes_action}
use chicoree.TokenPolicy.{TokenRestriction, Target, restriction_allows}
use chicoree.Database.{Database, Organization, Repository, membership, org_by_slug}
use chicoree.Access.{
  PatScope, Caller, UserCaller, user_caller, service_account, anonymous, all_actions, read, write,
  narrow_scope, if_public, caller_actions, allowed_repository_actions, member_baseline,
}
use chicoree.Access.Agreement.{is_public}
use chicoree.Access.Limits.{
  pulls_only-includes, pulls_only-OnlyPulls, requested-All, allowed_actions-IsAllowed,
}

if_then-includes :
    (b : Bool) (l : List RegistryAction) (a : RegistryAction)
    → includes_action (if b then l else []) a ≡ true
    → (b ≡ true) × (includes_action l a ≡ true)
unfolding includes_action
if_then-includes true l a h = (refl, h)
if_then-includes false l a h = cc

narrow-pull :
    (o : Option PatScope) (l : List RegistryAction) (a : RegistryAction)
    → o ≡ some read
    → includes_action (narrow_scope o l) a ≡ true
    → a ≡ pull
unfolding narrow_scope
narrow-pull none l a e h = cc
narrow-pull (some read) l a e h = pulls_only-OnlyPulls l a h
narrow-pull (some write) l a e h = cc

module _ (db : Database) (c : UserCaller) (org : Organization) (repo : Option Repository)
    (visibility : Option Str) (a : RegistryAction)
    (h : includes_action (caller_actions db (user_caller c) org repo visibility) a ≡ true) where
  read_scope-pull : c.pat_scope ≡ some read → a ≡ pull
  unfolding caller_actions
  read_scope-pull e = narrow-pull c.pat_scope _ a e (if_then-includes _ _ a h).1

  restriction-allowed :
      restriction_allows c.restriction
        (record { organization_id = org.id; repository_id = Option.map (λ r. r.id) repo })
      ≡ true
  unfolding caller_actions
  restriction-allowed = (if_then-includes _ _ a h).0

restriction-org :
    (r : TokenRestriction) (t : Target)
    → restriction_allows (some r) t ≡ true
    → r.organization_id ≡ t.organization_id
unfolding restriction_allows
restriction-org r t h = (str_eq_iff r.organization_id t.organization_id).0 (ground arith)

module _ (db : Database) (url_host : Str → Option Str) (c : UserCaller) (org_slug repo_name : Str)
    (requested : List RegistryAction) where
  -- A personal access token with the read scope is granted nothing but pull, also for an
  -- administrator.
  pub read_scope-grants_pull :
      c.pat_scope ≡ some read
      → All
          (λ a. a ≡ pull)
          (allowed_repository_actions db url_host (user_caller c) org_slug repo_name requested)
  unfolding allowed_repository_actions
  read_scope-grants_pull e =
      requested-All (λ a. a ≡ pull) _ requested
        λ a h.
          let v = allowed_actions-IsAllowed db url_host (user_caller c) org_slug repo_name a h in
          read_scope-pull db c v.org v.repo v.visibility a v.listed e

  -- Whatever a token restricted to an organization is granted is in the organization of the
  -- restriction.
  pub restriction-grants_inside :
      (r : TokenRestriction)
      → c.restriction ≡ some r
      → All
          (λ a.
            (org : Organization) × (org_by_slug db org_slug ≡ some org)
            × (r.organization_id ≡ org.id))
          (allowed_repository_actions db url_host (user_caller c) org_slug repo_name requested)
  unfolding allowed_repository_actions
  restriction-grants_inside r e = requested-All _ _ requested λ a h.
      let v = allowed_actions-IsAllowed db url_host (user_caller c) org_slug repo_name a h in
      (
        v.org,
        v.found,
        restriction-org r
            (record { organization_id = v.org.id; repository_id = Option.map (λ x. x.id) v.repo })
            (subst
              (λ o.
                restriction_allows o (record {
                  organization_id = v.org.id;
                  repository_id = Option.map (λ x. x.id) v.repo;
                })
                ≡ true)
              e (restriction-allowed db c v.org v.repo v.visibility a v.listed)),
      )

-- The caller has no part in the organization.
abbrev pub IsOutsider : Database → Organization → Caller → Type 0
IsOutsider db org anonymous = Unit
IsOutsider db org (user_caller c) = (c.is_admin ≡ false) × (membership db org.id c.user_id ≡ none)
IsOutsider db org (service_account sa) = str_eq sa.organization_id org.id ≡ false

if_public-pull :
    (visibility : Option Str) (a : RegistryAction)
    → includes_action (if_public visibility) a ≡ true
    → (a ≡ pull) × (is_public visibility ≡ true)
unfolding includes_action
if_public-pull none a h = cc
if_public-pull (some v) pull h = ground arith
if_public-pull (some v) push h = ground arith
if_public-pull (some v) delete h = ground arith

narrow-includes :
    (o : Option PatScope) (l : List RegistryAction) (a : RegistryAction)
    → includes_action (narrow_scope o l) a ≡ true
    → includes_action l a ≡ true
unfolding narrow_scope
narrow-includes none l a h = h
narrow-includes (some read) l a h = pulls_only-includes l a h
narrow-includes (some write) l a h = h

outsider_baseline :
    (db : Database) (user_id : Str) (org : Organization) (repo : Option Repository)
    (visibility : Option Str)
    → membership db org.id user_id ≡ none
    → member_baseline db user_id org repo visibility ≡ if_public visibility
unfolding member_baseline
outsider_baseline db user_id org repo visibility e = rw e refl

-- An anonymous caller, a user who is neither an administrator nor a member, and a service account
-- of another organization may at most pull, and only what is public.
pub outsider-pulls_public :
    (db : Database) (caller : Caller) (org : Organization) (repo : Option Repository)
    (visibility : Option Str) (a : RegistryAction)
    → IsOutsider db org caller
    → includes_action (caller_actions db caller org repo visibility) a ≡ true
    → (a ≡ pull) × (is_public visibility ≡ true)
unfolding caller_actions
outsider-pulls_public db anonymous org repo visibility a out h = if_public-pull visibility a h
outsider-pulls_public db (user_caller c) org repo visibility a out h =
    let inner =
      narrow-includes c.pat_scope
        (if c.is_admin then all_actions else member_baseline db c.user_id org repo visibility) a
        (if_then-includes _ _ a h).1 in
    if_public-pull visibility a
      (rw (out.0, outsider_baseline db c.user_id org repo visibility out.1) at inner)
outsider-pulls_public db (service_account sa) org repo visibility a out h =
    if_public-pull visibility a (rw out at h)
