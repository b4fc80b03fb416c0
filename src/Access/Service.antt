-- ===== src/Access/Service.antt =====
-- The registry's token service against the permissions of the REST API.
use mathlib.Core.Option
use chicoree.Prelude.{
  ◌≡◌, ◌≢◌, refl, ap, ◌∙◌, Bool, true, false, not, ◌&&◌, ◌||◌, is_some, Option, none, some, List,
  [], ◌∷◌, filter, is_empty, Str, arith, if◌then◌else◌,
}
use chicoree.Roles.{
  RegistryAction, pull, push, delete, includes_action, org_role, permission_at_least,
}
use chicoree.Proxy.{has_slash, is_docker_hub_url, proxy_local_name}
use chicoree.Database.{
  Database, Organization, OrganizationProxy, Repository, Member, org_by_slug, proxy_of,
  repository_by_name, membership,
}
use chicoree.Access.{
  UserCaller, user_caller, is_pull, pulls_only, caller_actions, effective_permission, visibility_of,
  org_actions, found_actions, allowed_actions, allowed_repository_actions,
}
use chicoree.Access.Agreement.{needed, is_public, caller_actions-effective_permission}

pulls_only_includes :
    (l : List RegistryAction) (a : RegistryAction)
    → includes_action (pulls_only l) a ≡ (is_pull a && includes_action l a)
unfolding includes_action
pulls_only_includes [] a = ground arith
pulls_only_includes (pull ∷ l) a = ground (arith, pulls_only_includes l a)
pulls_only_includes (push ∷ l) a = ground (arith, pulls_only_includes l a)
pulls_only_includes (delete ∷ l) a = ground (arith, pulls_only_includes l a)

requested_includes :
    (allowed requested : List RegistryAction) (a : RegistryAction)
    → includes_action (filter (includes_action allowed) requested) a
      ≡ (includes_action requested a && includes_action allowed a)
unfolding includes_action
requested_includes allowed [] a = refl
requested_includes allowed (pull ∷ requested) pull =
    ground (arith, requested_includes allowed requested pull)
requested_includes allowed (pull ∷ requested) push =
    ground (arith, requested_includes allowed requested push)
requested_includes allowed (pull ∷ requested) delete =
    ground (arith, requested_includes allowed requested delete)
requested_includes allowed (push ∷ requested) pull =
    ground (arith, requested_includes allowed requested pull)
requested_includes allowed (push ∷ requested) push =
    ground (arith, requested_includes allowed requested push)
requested_includes allowed (push ∷ requested) delete =
    ground (arith, requested_includes allowed requested delete)
requested_includes allowed (delete ∷ requested) pull =
    ground (arith, requested_includes allowed requested pull)
requested_includes allowed (delete ∷ requested) push =
    ground (arith, requested_includes allowed requested push)
requested_includes allowed (delete ∷ requested) delete =
    ground (arith, requested_includes allowed requested delete)

unless-includes :
    (b : Bool) (l : List RegistryAction) (a : RegistryAction)
    → includes_action (if b then [] else l) a ≡ (not b && includes_action l a)
unfolding includes_action
unless-includes true l a = refl
unless-includes false l a = refl

-- The name under which the organization has the repository.
abbrev pub stored_name : (url_host : Str → Option Str) → Option OrganizationProxy → Str → Str
stored_name url_host none name = name
stored_name url_host (some proxy) name =
    proxy_local_name (is_docker_hub_url url_host proxy.upstream_url) name

-- A proxy cache is only pulled from, and another organization has no nested names.
abbrev pub may_reach : Option OrganizationProxy → Str → RegistryAction → Bool
may_reach none name a = not (has_slash name)
may_reach (some proxy) name a = is_pull a

module _ (db : Database) (url_host : Str → Option Str) where
  org_actions_includes :
      (c : UserCaller) (org : Organization) (proxy : Option OrganizationProxy) (name : Str)
      (a : RegistryAction)
      → let repo = repository_by_name db org.id (stored_name url_host proxy name) in
        includes_action (org_actions db url_host (user_caller c) org proxy name) a ≡ (
          may_reach proxy name a
          && includes_action
              (caller_actions db
                (user_caller c)
                org
                repo
                (visibility_of db org (is_some proxy) repo))
              a)
  unfolding org_actions
  org_actions_includes c org none name a =
      let repo = repository_by_name db org.id name in
      let actions = caller_actions db (user_caller c) org repo (visibility_of db org false repo) in
      unless-includes (has_slash name) actions a
  org_actions_includes c org (some proxy) name a =
      let repo = repository_by_name db org.id (stored_name url_host (some proxy) name) in
      pulls_only_includes
        (caller_actions db (user_caller c) org repo (visibility_of db org true repo)) a

  allowed_includes :
      (c : UserCaller) (org_slug name : Str) (requested : List RegistryAction) (org : Organization)
      (a : RegistryAction)
      → org_by_slug db org_slug ≡ some org
      → includes_action
          (allowed_repository_actions db url_host (user_caller c) org_slug name requested)
          a
        ≡ (includes_action requested a
            && includes_action
                (org_actions db url_host (user_caller c) org (proxy_of db org.id) name)
                a)
  unfolding allowed_repository_actions allowed_actions found_actions
  allowed_includes c org_slug name requested org a found =
      requested_includes (allowed_actions db url_host (user_caller c) org_slug name) requested a
      ∙ ap
          (λ o.
            includes_action requested a
            && includes_action (found_actions db url_host (user_caller c) o name) a)
          found

  -- For a credential without limits, and a member whose role is one of the four or no member, the
  -- registry's token service grants a requested action exactly where the effective permission of
  -- the REST API suffices for it, or it is pull of what is public, and moreover it is pull, in a
  -- proxy cache, or the name has no slash, in another organization. The permission is that in the
  -- repository of the name, as a proxy cache stores it.
  pub allowed_repository_actions-effective_permission :
      (c : UserCaller) (org_slug name : Str) (requested : List RegistryAction) (org : Organization)
      → org_by_slug db org_slug ≡ some org
      → c.pat_scope ≡ none
      → c.restriction ≡ none
      → ((m : Member) → membership db org.id c.user_id ≡ some m → org_role m.role ≢ none)
      → ((r : Repository)
          → repository_by_name db org.id (stored_name url_host (proxy_of db org.id) name) ≡ some r
          → is_empty r.id ≡ false)
      → (a : RegistryAction)
      → let proxy = proxy_of db org.id in
        let repo = repository_by_name db org.id (stored_name url_host proxy name) in
        includes_action
          (allowed_repository_actions db url_host (user_caller c) org_slug name requested)
          a
        ≡ (includes_action requested a
            && (may_reach proxy name a
                && (permission_at_least
                      (effective_permission db c.user_id c.is_admin
                        (Option.map (λ m. m.role) (membership db org.id c.user_id))
                        (Option.map (λ r. r.id) repo))
                      (needed a)
                    || (is_pull a && is_public (visibility_of db org (is_some proxy) repo)))))
  allowed_repository_actions-effective_permission c org_slug name requested org found unscoped free
        known named a =
      let proxy = proxy_of db org.id in
      let repo = repository_by_name db org.id (stored_name url_host proxy name) in
      allowed_includes c org_slug name requested org a found
      ∙ ap (λ x. includes_action requested a && x)
          (org_actions_includes c org proxy name a
            ∙ ap (λ x. may_reach proxy name a && x)
                (caller_actions-effective_permission db c org repo
                  (visibility_of db org (is_some proxy) repo) unscoped free known named a))
