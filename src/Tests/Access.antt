-- ===== src/Tests/Access.antt =====
-- An organization with a member, a team and a proxy cache.
use mathlib.Core.Option
use mathlib.Core.Option.{some-injective}
use chicoree.Prelude.{
  ◌≡◌, ◌≢◌, ◌||◌, ◌&&◌, refl, subst, true, false, Option, none, some, List, [], ◌∷◌, All, Str, str,
  str_eq, is_empty, trim, lower, is_space,
}
use chicoree.Roles.{
  RegistryAction, pull, push, delete, includes_action, org_role, max_permission,
  permission_at_least, repo_permission, role_registry_actions,
}
use chicoree.TokenPolicy.{TokenRestriction, restriction_allows}
use chicoree.Proxy.{is_docker_hub_url, proxy_local_name}
use chicoree.Database.{
  Database, Organization, OrganizationProxy, Repository, Member, team, membership, org_by_slug,
  proxy_of,
}
use chicoree.Access.{
  visibility_of, UserCaller, user_caller, anonymous, read, is_pull, caller_actions,
  allowed_repository_actions, effective_permission, granted_permission, member_baseline,
}
use chicoree.Access.Agreement.{needed, is_public}
use chicoree.Access.Service.{may_reach, allowed_repository_actions-effective_permission}
use chicoree.Access.Tokens.{restriction-grants_inside, outsider-pulls_public}

abbrev acme : Organization
acme = record { id = str "o1"; slug = str "acme" }

abbrev hub : Organization
hub = record { id = str "o2"; slug = str "hub" }

abbrev hub_proxy : OrganizationProxy
hub_proxy = record { organization_id = str "o2"; upstream_url = str "https://docker.io" }

abbrev app : Repository
app = record {
  id = str "r1";
  organization_id = str "o1";
  name = str "app";
  visibility = str "private";
}

abbrev viewer_row : Member
viewer_row = record { organization_id = str "o1"; user_id = str "u1"; role = str "viewer" }

abbrev db : Database
db = record {
  users = [];
  organizations = acme ∷ hub ∷ [];
  proxies = hub_proxy ∷ [];
  settings = [];
  repositories = app ∷ [];
  members = viewer_row ∷ [];
  team_members = record { team_id = str "t1"; user_id = str "u1" } ∷ [];
  grants =
      record {
        repository_id = str "r1";
        subject_type = team;
        subject_id = str "t1";
        permission = str "push";
      }
      ∷ [];
}

-- A parser that reads no URL, so that the host is cut out of the text.
no_host : Str → Option Str
no_host s = none

abbrev ann : UserCaller
ann = record { user_id = str "u1"; is_admin = false; pat_scope = none; restriction = none }

abbrev reader : UserCaller
reader = record { user_id = str "u1"; is_admin = false; pat_scope = some read; restriction = none }

abbrev elsewhere : TokenRestriction
elsewhere = record { organization_id = str "o2"; repository_ids = none }

abbrev bound : UserCaller
bound = record {
  user_id = str "u1";
  is_admin = true;
  pat_scope = none;
  restriction = some elsewhere;
}

abbrev every : List RegistryAction
every = pull ∷ push ∷ delete ∷ []

service : Unit {0}
unfolding allowed_repository_actions restriction_allows str_eq granted_permission includes_action
    org_role role_registry_actions repo_permission max_permission is_docker_hub_url proxy_local_name
    no_host member_baseline trim is_space lower
service = tt

grant_tests :
    (allowed_repository_actions db no_host (user_caller ann) (str "acme") (str "app") every
      ≡ pull ∷ push ∷ [])
    × (allowed_repository_actions db no_host (user_caller reader) (str "acme") (str "app") every
        ≡ pull ∷ [])
    × (allowed_repository_actions db no_host (user_caller bound) (str "acme") (str "app") every
        ≡ [])
    × (allowed_repository_actions db no_host anonymous (str "acme") (str "app") every ≡ [])
unfolding service
grant_tests = (refl, refl, refl, refl)

ann-role : (m : Member) → membership db acme.id ann.user_id ≡ some m → org_role m.role ≢ none
unfolding service
ann-role m e =
    subst (λ (x : Member). org_role x.role ≢ none) (some-injective viewer_row m e) (λ f. cc)

app-named : (r : Repository) → some app ≡ some r → is_empty r.id ≡ false
app-named r e = subst (λ (x : Repository). is_empty x.id ≡ false) (some-injective app r e) refl

acme-found : org_by_slug db (str "acme") ≡ some acme
unfolding str_eq
acme-found = refl

allowed_repository_actions-effective_permission_example :
    includes_action
      (allowed_repository_actions db no_host (user_caller ann) (str "acme") (str "app") every)
      push
    ≡ (includes_action every push
        && (may_reach none (str "app") push
            && (permission_at_least
                  (effective_permission db
                    (str "u1")
                    false
                    (Option.map (λ m. m.role) (membership db acme.id (str "u1")))
                    (some (str "r1")))
                  (needed push)
                || (is_pull push && is_public (some (str "private"))))))
unfolding str_eq visibility_of
allowed_repository_actions-effective_permission_example =
    allowed_repository_actions-effective_permission db no_host ann (str "acme") (str "app") every
      acme acme-found refl refl ann-role app-named push

hub-found : org_by_slug db (str "hub") ≡ some hub
unfolding str_eq
hub-found = refl

hub-proxied : proxy_of db hub.id ≡ some hub_proxy
unfolding str_eq
hub-proxied = refl

restriction-grants_inside_example :
    All
      (λ a.
        (org : Organization) × (org_by_slug db (str "hub") ≡ some org)
        × (elsewhere.organization_id ≡ org.id))
      (allowed_repository_actions db no_host (user_caller bound) (str "hub") (str "nginx") every)
restriction-grants_inside_example =
    restriction-grants_inside db no_host bound (str "hub") (str "nginx") every elsewhere refl

open_pull :
    includes_action (caller_actions db anonymous acme (some app) (some (str "public"))) pull ≡ true
unfolding service caller_actions
open_pull = refl

outsider-pulls_public_example :
    (◌≡◌ {A = RegistryAction} pull pull) × (is_public (some (str "public")) ≡ true)
outsider-pulls_public_example =
    outsider-pulls_public db anonymous acme (some app) (some (str "public")) pull tt open_pull
