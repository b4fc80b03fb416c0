-- ===== src/Access.antt =====
-- web/src/lib/access.ts and the permission part of web/src/lib/repo-access.ts: who may pull, push
-- and delete in which repository, for the registry's token service and for the REST API.
pub mod Granted
pub mod Limits
pub mod Tokens
pub mod Agreement
pub mod Service
use mathlib.Core.Option
use chicoree.Prelude.{
  ℕ, ◌≡◌, refl, Bool, true, false, not, ◌||◌, ◌&&◌, Option, none, some, List, [], ◌∷◌, ◌++◌,
  is_empty, map, filter, any, get_or, is_some, if◌then◌else◌, Str, str, str_eq, includes,
}
use chicoree.Roles.{
  RegistryAction, pull, push, delete, includes_action, OrgRole, org_role, role_registry_actions,
  RepoPermission, repo_permission, permission_from_role, max_permission,
}
use chicoree.TokenPolicy.{TokenRestriction, Target, restriction_allows}
use chicoree.Proxy.{has_slash, is_docker_hub_url, proxy_local_name}
use chicoree.Database.{
  Database, User, user_by_id, Organization, OrganizationProxy, OrganizationSettings, Repository,
  Member, Grant, user, team, org_by_slug, proxy_of, settings_of, repository_by_name, membership,
}

pub data PatScope : Type 0 where
  read write : PatScope

pub record UserCaller : Type 0 where
  pub user_id : Str
  pub is_admin : Bool
  pub pat_scope : Option PatScope
  pub restriction : Option TokenRestriction

pub record ServiceAccount : Type 0 where
  pub sa_id : Str
  pub organization_id : Str
  pub permission : RepoPermission
  pub repository_ids : Option (List Str)

pub data Caller : Type 0 where
  anonymous : Caller
  user_caller : UserCaller → Caller
  service_account : ServiceAccount → Caller

abbrev all_actions : List RegistryAction
all_actions = pull ∷ push ∷ delete ∷ []

abbrev pub is_pull : RegistryAction → Bool
is_pull pull = true
is_pull push = false
is_pull delete = false

abbrev pub pulls_only : List RegistryAction → List RegistryAction
pulls_only = filter is_pull

abbrev pub if_public : Option Str → List RegistryAction
if_public none = []
if_public (some visibility) = if str_eq visibility (str "public") then pull ∷ [] else []

module _ (db : Database) where
  -- The condition of the query: a grant to the person, or to a team of theirs.
  unfoldable pub grant_applies : Str → Str → Grant → Bool
  grant_applies user_id repository_id g =
      str_eq g.repository_id repository_id && elim g.subject_type [
        | user ↦ str_eq g.subject_id user_id
        | team ↦
            any (λ m. str_eq m.team_id g.subject_id && str_eq m.user_id user_id) db.team_members
      ]

  -- The loop over the rows; a text that is no permission is skipped.
  best_permission : Option RepoPermission → List Grant → Option RepoPermission
  best_permission best [] = best
  best_permission best (g ∷ gs) =
      best_permission (max_permission best (repo_permission g.permission)) gs

  unfoldable pub granted_permission : Str → Str → Option RepoPermission
  unfolding grant_applies best_permission
  granted_permission user_id repository_id =
      best_permission none (filter (grant_applies user_id repository_id) db.grants)

  -- Grants count only for members of the organization, and only in a repository.
  with_grants : Str → Option Str → Option Str → Option RepoPermission → Option RepoPermission
  unfolding granted_permission
  with_grants user_id (some role) (some repository_id) base =
      if is_empty role || is_empty repository_id
      then base
      else max_permission base (granted_permission user_id repository_id)
  with_grants user_id _ _ base = base

  unfoldable pub effective_permission : Str → Bool → Option Str → Option Str → Option RepoPermission
  unfolding with_grants
  effective_permission user_id is_admin role repository_id =
      if is_admin
      then some RepoPermission.admin
      else with_grants user_id role repository_id (permission_from_role role)

-- What a role gives; one that the code does not know may pull.
known_actions : Option OrgRole → List RegistryAction
known_actions none = pull ∷ []
known_actions (some r) = role_registry_actions r

member_actions : Option Member → List RegistryAction
unfolding known_actions
member_actions none = []
member_actions (some m) = known_actions (org_role m.role)

-- `new Set(…)`, in the order of insertion.
add_action : List RegistryAction → RegistryAction → List RegistryAction
add_action seen a = if includes_action seen a then seen else seen ++ a ∷ []

to_set : List RegistryAction → List RegistryAction → List RegistryAction
unfolding add_action
to_set seen [] = seen
to_set seen (a ∷ more) = to_set (add_action seen a) more

-- A grant raises the role's baseline.
raise : List RegistryAction → Option RepoPermission → List RegistryAction
unfolding to_set
raise allowed (some RepoPermission.admin) = all_actions
raise allowed (some RepoPermission.push) =
    if includes_action allowed push then allowed else to_set [] (allowed ++ pull ∷ push ∷ [])
raise allowed (some RepoPermission.pull) = allowed
raise allowed none = allowed

-- The three permissions of a service account.
permission_actions : RepoPermission → List RegistryAction
permission_actions RepoPermission.admin = all_actions
permission_actions RepoPermission.push = pull ∷ push ∷ []
permission_actions RepoPermission.pull = pull ∷ []

or_public : List RegistryAction → Option Str → List RegistryAction
or_public [] visibility = if_public visibility
or_public (a ∷ more) visibility = a ∷ more

narrow_scope : Option PatScope → List RegistryAction → List RegistryAction
narrow_scope (some read) allowed = pulls_only allowed
narrow_scope (some write) allowed = allowed
narrow_scope none allowed = allowed

module _ (db : Database) where
  raise_by_grant :
      Str → Option Member → Option Repository → List RegistryAction → List RegistryAction
  unfolding raise
  raise_by_grant user_id (some m) (some repo) allowed =
      raise allowed (granted_permission db user_id repo.id)
  raise_by_grant user_id _ _ allowed = allowed

  -- The baseline of someone who is no administrator of the instance.
  unfoldable pub member_baseline :
      Str → Organization → Option Repository → Option Str → List RegistryAction
  unfolding member_actions raise_by_grant or_public
  member_baseline user_id org repo visibility =
      let m = membership db org.id user_id in
      or_public (raise_by_grant user_id m repo (member_actions m)) visibility

  user_actions : UserCaller → Organization → Option Repository → Option Str → List RegistryAction
  unfolding narrow_scope
  user_actions c org repo visibility =
      let baseline =
        if c.is_admin then all_actions else member_baseline c.user_id org repo visibility in
      let target : Target = record {
        organization_id = org.id;
        repository_id = Option.map (λ r. r.id) repo;
      } in
      if restriction_allows c.restriction target then narrow_scope c.pat_scope baseline else []

-- A service account that is limited to repositories reaches only those that exist and are listed.
lists : Option (List Str) → Option Repository → Bool
unfolding includes
lists none repo = true
lists (some ids) none = false
lists (some ids) (some repo) = includes ids repo.id

sa_actions : ServiceAccount → Organization → Option Repository → Option Str → List RegistryAction
unfolding lists permission_actions
sa_actions sa org repo visibility =
    if not (str_eq sa.organization_id org.id)
    then if_public visibility
    else if lists sa.repository_ids repo
    then permission_actions sa.permission
    else []

module _ (db : Database) where
  unfoldable pub caller_actions :
      Caller → Organization → Option Repository → Option Str → List RegistryAction
  unfolding user_actions sa_actions
  caller_actions anonymous org repo visibility = if_public visibility
  caller_actions (user_caller c) org repo visibility = user_actions db c org repo visibility
  caller_actions (service_account sa) org repo visibility = sa_actions sa org repo visibility

  settings_visibility : Option OrganizationSettings → Str
  settings_visibility none = str "private"
  settings_visibility (some s) = get_or s.default_visibility (str "private")

  -- A repository that the proxy has not cached yet is as visible as it will be.
  unfoldable pub visibility_of : Organization → Bool → Option Repository → Option Str
  unfolding settings_visibility
  visibility_of org proxied (some repo) = some repo.visibility
  visibility_of org true none = some (settings_visibility (settings_of db org.id))
  visibility_of org false none = none

  -- Behind the look-up of the organization and of its proxy.
  unfoldable pub org_actions :
      (url_host : Str → Option Str)
      → Caller
      → Organization
      → Option OrganizationProxy
      → Str
      → List RegistryAction
  unfolding visibility_of caller_actions
  org_actions url_host caller org none repo_name =
      let repo = repository_by_name db org.id repo_name in
      if has_slash repo_name
      then []
      else caller_actions caller org repo (visibility_of org false repo)
  org_actions url_host caller org (some proxy) repo_name =
      let local = proxy_local_name (is_docker_hub_url url_host proxy.upstream_url) repo_name in
      let repo = repository_by_name db org.id local in
      pulls_only (caller_actions caller org repo (visibility_of org true repo))

  found_actions :
      (url_host : Str → Option Str) → Caller → Option Organization → Str → List RegistryAction
  unfolding org_actions
  found_actions url_host caller none repo_name = []
  found_actions url_host caller (some org) repo_name =
      org_actions url_host caller org (proxy_of db org.id) repo_name

  unfoldable pub allowed_actions :
      (url_host : Str → Option Str) → Caller → Str → Str → List RegistryAction
  unfolding found_actions
  allowed_actions url_host caller org_slug repo_name =
      found_actions url_host caller (org_by_slug db org_slug) repo_name

  unfoldable pub allowed_repository_actions :
      (url_host : Str → Option Str) → Caller → Str → Str → List RegistryAction → List RegistryAction
  unfolding allowed_actions
  allowed_repository_actions url_host caller org_slug repo_name requested =
      filter (includes_action (allowed_actions url_host caller org_slug repo_name)) requested

  is_admin_row : Option User → Bool
  is_admin_row none = false
  is_admin_row (some u) = str_eq u.role (str "admin")

  -- The catalog spans every organization.
  unfoldable pub may_access_catalog : Caller → Bool
  unfolding is_admin_row
  may_access_catalog (user_caller c) =
      if is_some c.restriction
      then false
      else if c.is_admin
      then true
      else is_admin_row (user_by_id db c.user_id)
  may_access_catalog _ = false
