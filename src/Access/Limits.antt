-- ===== src/Access/Limits.antt =====
-- What no caller gets: the limits of proxy caches, of tokens and of service accounts.
use chicoree.Prelude.{
  ◌≡◌, refl, Bool, true, false, Option, none, some, List, [], ◌∷◌, filter, All, Str, arith,
  if◌then◌else◌, Bool-cases, inl, inr,
}
use chicoree.Roles.{RegistryAction, pull, push, delete, includes_action}
use chicoree.Database.{
  Database, Organization, OrganizationProxy, Repository, org_by_slug, proxy_of, repository_by_name,
}
use chicoree.Proxy.{proxy_local_name, is_docker_hub_url, has_slash}
use chicoree.Access.{
  visibility_of, found_actions, Caller, pulls_only, caller_actions, org_actions, allowed_actions,
  allowed_repository_actions,
}

pub pulls_only-OnlyPulls :
    (l : List RegistryAction) (a : RegistryAction)
    → includes_action (pulls_only l) a ≡ true
    → a ≡ pull
unfolding includes_action
pulls_only-OnlyPulls [] a h = cc
pulls_only-OnlyPulls (pull ∷ l) pull h = refl
pulls_only-OnlyPulls (pull ∷ l) a h = pulls_only-OnlyPulls l a (ground arith)
pulls_only-OnlyPulls (push ∷ l) a h = pulls_only-OnlyPulls l a h
pulls_only-OnlyPulls (delete ∷ l) a h = pulls_only-OnlyPulls l a h

pub pulls_only-includes :
    (l : List RegistryAction) (a : RegistryAction)
    → includes_action (pulls_only l) a ≡ true
    → includes_action l a ≡ true
unfolding includes_action
pulls_only-includes [] a h = h
pulls_only-includes (pull ∷ l) pull h = refl
pulls_only-includes (pull ∷ l) a h = ground (arith, pulls_only-includes l a)
pulls_only-includes (push ∷ l) a h = ground (arith, pulls_only-includes l a)
pulls_only-includes (delete ∷ l) a h = ground (arith, pulls_only-includes l a)

-- What holds of the allowed actions holds of those that are granted of a request.
pub requested-All :
    (P : RegistryAction → Type 0) (allowed requested : List RegistryAction)
    → ((a : RegistryAction) → includes_action allowed a ≡ true → P a)
    → All P (filter (includes_action allowed) requested)
requested-All P allowed [] h = tt
requested-All P allowed (a ∷ more) h = elim (Bool-cases (includes_action allowed a)) [
  | inl e ↦ rw e (h a e, requested-All P allowed more h)
  | inr e ↦ rw e (requested-All P allowed more h)
]

else-includes :
    (b : Bool) (l : List RegistryAction) (a : RegistryAction)
    → includes_action (if b then [] else l) a ≡ true
    → includes_action l a ≡ true
unfolding includes_action
else-includes true l a h = cc
else-includes false l a h = h

module _ (db : Database) (url_host : Str → Option Str) where
  proxied :
      (caller : Caller) (org_slug repo_name : Str) (org : Organization) (proxy : OrganizationProxy)
      → org_by_slug db org_slug ≡ some org
      → proxy_of db org.id ≡ some proxy
      → (l : List RegistryAction) × (allowed_actions db url_host caller org_slug repo_name
          ≡ pulls_only l)
  unfolding allowed_actions
  proxied caller org_slug repo_name org proxy e f =
      let local = proxy_local_name (is_docker_hub_url url_host proxy.upstream_url) repo_name in
      let repo = repository_by_name db org.id local in
      (caller_actions db caller org repo (visibility_of db org true repo), rw (e, f))

  -- In a proxy-cache organization every granted action is pull, for every caller and request.
  pub proxy-grants_pull :
      (caller : Caller) (org_slug repo_name : Str) (requested : List RegistryAction)
      (org : Organization) (proxy : OrganizationProxy)
      → org_by_slug db org_slug ≡ some org
      → proxy_of db org.id ≡ some proxy
      → All
          (λ a. a ≡ pull)
          (allowed_repository_actions db url_host caller org_slug repo_name requested)
  unfolding allowed_repository_actions
  proxy-grants_pull caller org_slug repo_name requested org proxy e f =
      let (l, same) = proxied caller org_slug repo_name org proxy e f in
      rw same (requested-All (λ a. a ≡ pull) (pulls_only l) requested (pulls_only-OnlyPulls l))

-- An action that is allowed is one of the caller's actions in some organization of that name.
pub record IsAllowed (db : Database) (caller : Caller) (org_slug : Str) (a : RegistryAction)
    : Type 0 where
  pub org : Organization
  pub repo : Option Repository
  pub visibility : Option Str
  pub found : org_by_slug db org_slug ≡ some org
  pub listed : includes_action (caller_actions db caller org repo visibility) a ≡ true

module _ (db : Database) (url_host : Str → Option Str) (caller : Caller) (org_slug repo_name : Str)
    (a : RegistryAction) where
  org_actions-IsAllowed :
      (org : Organization) (proxy : Option OrganizationProxy)
      → org_by_slug db org_slug ≡ some org
      → includes_action (org_actions db url_host caller org proxy repo_name) a ≡ true
      → IsAllowed db caller org_slug a
  unfolding org_actions
  org_actions-IsAllowed org none e h = record {
    org = org;
    repo = repository_by_name db org.id repo_name;
    visibility = visibility_of db org false (repository_by_name db org.id repo_name);
    found = e;
    listed = else-includes (has_slash repo_name) _ a h;
  }
  org_actions-IsAllowed org (some proxy) e h =
      let local = proxy_local_name (is_docker_hub_url url_host proxy.upstream_url) repo_name in
      let repo = repository_by_name db org.id local in
      record {
        org = org;
        repo = repo;
        visibility = visibility_of db org true repo;
        found = e;
        listed = pulls_only-includes _ a h;
      }

  found_actions-IsAllowed :
      (org : Option Organization)
      → org_by_slug db org_slug ≡ org
      → includes_action (found_actions db url_host caller org repo_name) a ≡ true
      → IsAllowed db caller org_slug a
  unfolding found_actions includes_action
  found_actions-IsAllowed none e h = cc
  found_actions-IsAllowed (some org) e h = org_actions-IsAllowed org (proxy_of db org.id) e h

  pub allowed_actions-IsAllowed :
      includes_action (allowed_actions db url_host caller org_slug repo_name) a ≡ true
      → IsAllowed db caller org_slug a
  unfolding allowed_actions
  allowed_actions-IsAllowed h = found_actions-IsAllowed (org_by_slug db org_slug) refl h
