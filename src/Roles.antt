-- ===== src/Roles.antt =====
-- web/src/lib/org-roles.ts and web/src/lib/repo-access-shared.ts: roles, permissions and what they
-- grant in the registry. A role is a column of text in the database, so it is a string here too.
pub mod Order
use chicoree.Prelude.{
  ℕ, Bool, true, false, Option, none, some, List, [], ◌∷◌, leb, if◌then◌else◌, Str, str, str_eq,
}

pub data RegistryAction : Type 0 where
  pull push delete : RegistryAction

unfoldable pub action_eq : RegistryAction → RegistryAction → Bool
action_eq pull pull = true
action_eq push push = true
action_eq delete delete = true
action_eq _ _ = false

-- `list.includes(action)`
unfoldable pub includes_action : List RegistryAction → RegistryAction → Bool
unfolding action_eq
includes_action [] a = false
includes_action (b ∷ bs) a = let rest = includes_action bs a in if action_eq b a then true else rest

pub data OrgRole : Type 0 where
  owner admin member viewer : OrgRole

-- The keys of `orgRoles`.
unfoldable pub org_role : Str → Option OrgRole
unfolding str_eq
org_role s =
    if str_eq s (str "owner")
    then some owner
    else if str_eq s (str "admin")
    then some admin
    else if str_eq s (str "member")
    then some member
    else if str_eq s (str "viewer")
    then some viewer
    else none

unfoldable pub role_registry_actions : OrgRole → List RegistryAction
role_registry_actions owner = pull ∷ push ∷ delete ∷ []
role_registry_actions admin = pull ∷ push ∷ delete ∷ []
role_registry_actions member = pull ∷ push ∷ []
role_registry_actions viewer = pull ∷ []

pub data RepoPermission : Type 0 where
  pull push admin : RepoPermission

unfoldable pub rank : RepoPermission → ℕ
rank RepoPermission.pull = 1
rank RepoPermission.push = 2
rank RepoPermission.admin = 3

-- `isRepoPermission`, with the permission that the text then is.
unfoldable pub repo_permission : Str → Option RepoPermission
repo_permission s =
    if str_eq s (str "pull")
    then some RepoPermission.pull
    else if str_eq s (str "push")
    then some RepoPermission.push
    else if str_eq s (str "admin")
    then some RepoPermission.admin
    else none

unfoldable pub permission_of_role : Option OrgRole → Option RepoPermission
permission_of_role (some owner) = some RepoPermission.admin
permission_of_role (some OrgRole.admin) = some RepoPermission.admin
permission_of_role (some member) = some RepoPermission.push
permission_of_role (some viewer) = some RepoPermission.pull
permission_of_role none = none

unfoldable pub role_of : Option Str → Option OrgRole
role_of none = none
role_of (some s) = org_role s

unfoldable pub permission_from_role : Option Str → Option RepoPermission
unfolding permission_of_role role_of
permission_from_role role = permission_of_role (role_of role)

unfoldable pub max_permission :
    Option RepoPermission → Option RepoPermission → Option RepoPermission
unfolding rank
max_permission none b = b
max_permission (some a) none = some a
max_permission (some a) (some b) = if leb (rank b) (rank a) then some a else some b

unfoldable pub permission_at_least : Option RepoPermission → RepoPermission → Bool
unfolding rank
permission_at_least none need = false
permission_at_least (some have) need = leb (rank need) (rank have)
