-- ===== src/Teams.antt =====
-- web/src/lib/repo-access.ts: the changes to teams and grants. The audit log that they write is left
-- out, and so are the descriptive columns; deleting a team deletes its memberships by the foreign
-- key.
pub mod Leaving
pub mod Granting
use chicoree.Prelude.{
  Bool, true, false, not, ◌&&◌, Option, none, some, List, [], ◌∷◌, ◌++◌, map, filter, find, any,
  is_some, if◌then◌else◌, Str, str_eq, includes, is_empty,
}
use chicoree.Roles.{RepoPermission}
use chicoree.Database.{
  Database, Repository, Member, TeamMember, Grant, SubjectType, user, team, membership,
}

pub record Team : Type 0 where
  pub id : Str
  pub organization_id : Str
  pub slug : Str

-- The tables that the functions change.
pub record Tables : Type 0 where
  pub database : Database
  pub teams : List Team

pub data Failure : Type 0 where
  no_such_team not_in_organization not_a_team_member no_such_grant : Failure

pub data Result : Type 0 where
  failed : Failure → Result
  done : Tables → Result

abbrev pub team_of : Tables → Str → Str → Option Team
team_of t org_id team_id =
    find (λ x. str_eq x.id team_id && str_eq x.organization_id org_id) t.teams

abbrev pub is_user : SubjectType → Bool
is_user user = true
is_user team = false

abbrev same_type : SubjectType → SubjectType → Bool
same_type user s = is_user s
same_type team s = not (is_user s)

-- Only members of the organization can join its teams; a second membership changes nothing.
unfoldable pub add_team_member : Str → Str → Str → Tables → Result
unfolding str_eq
add_team_member org_id team_id user_id t =
    let row : TeamMember = record { team_id = team_id; user_id = user_id } in
    let there =
      any (λ m. str_eq m.team_id team_id && str_eq m.user_id user_id) t.database.team_members in
    if not (is_some (team_of t org_id team_id))
    then failed no_such_team
    else if not (is_some (membership t.database org_id user_id))
    then failed not_in_organization
    else done (
        if there then t else record t {
          database = record t.database { team_members = t.database.team_members ++ row ∷ [] };
        })

unfoldable pub remove_team_member : Str → Str → Str → Tables → Result
unfolding str_eq
remove_team_member org_id team_id user_id t =
    let is_row : TeamMember → Bool = λ m. str_eq m.team_id team_id && str_eq m.user_id user_id in
    if not (is_some (team_of t org_id team_id))
    then failed no_such_team
    else if not (any is_row t.database.team_members)
    then failed not_a_team_member
    else done (record t {
      database = record t.database {
        team_members = filter (λ m. not (is_row m)) t.database.team_members;
      };
    })

unfoldable pub delete_team : Str → Str → Tables → Result
unfolding str_eq
delete_team org_id team_id t =
    if not (is_some (team_of t org_id team_id))
    then failed no_such_team
    else done (record {
      teams = filter (λ x. not (str_eq x.id team_id)) t.teams;
      database = record t.database {
        team_members = filter (λ m. not (str_eq m.team_id team_id)) t.database.team_members;
        grants =
            filter (λ g. not (not (is_user g.subject_type) && str_eq g.subject_id team_id))
              t.database.grants;
      };
    })

abbrev pub team_ids : List Team → Str → List Str
team_ids teams org_id = map (λ x. x.id) (filter (λ x. str_eq x.organization_id org_id) teams)

abbrev pub repository_ids : List Repository → Str → List Str
repository_ids repos org_id = map (λ r. r.id) (filter (λ r. str_eq r.organization_id org_id) repos)

-- A seat in one of the teams, and a grant of their own in one of the repositories.
pub is_seat : List Str → Str → TeamMember → Bool
unfolding includes str_eq
is_seat ids user_id m = includes ids m.team_id && str_eq m.user_id user_id

pub is_own_grant : List Str → Str → Grant → Bool
unfolding includes str_eq
is_own_grant ids user_id g =
    includes ids g.repository_id && is_user g.subject_type && str_eq g.subject_id user_id

-- Someone who left the organization leaves its teams and loses their grants.
unfoldable pub drop_organization_access : Str → Str → Tables → Tables
unfolding is_seat is_own_grant
drop_organization_access org_id user_id t =
    let seats = team_ids t.teams org_id in
    let repos = repository_ids t.database.repositories org_id in
    record t {
      database = record t.database {
        team_members =
            if is_empty seats
            then t.database.team_members
            else filter (λ m. not (is_seat seats user_id m)) t.database.team_members;
        grants =
            if is_empty repos
            then t.database.grants
            else filter (λ g. not (is_own_grant repos user_id g)) t.database.grants;
      };
    }

-- `INSERT … ON CONFLICT (repository, subject) DO UPDATE`
upsert_grant : Grant → List Grant → List Grant
unfolding str_eq
upsert_grant g [] = g ∷ []
upsert_grant g (h ∷ hs) =
    let rest = upsert_grant g hs in
    if str_eq h.repository_id g.repository_id
      && same_type h.subject_type g.subject_type
      && str_eq h.subject_id g.subject_id
    then g ∷ hs
    else h ∷ rest

unfoldable pub put_grant : Grant → Tables → Tables
unfolding upsert_grant
put_grant g t = record t {
  database = record t.database { grants = upsert_grant g t.database.grants };
}

-- The subject must belong to the organization of the repository.
unfoldable pub set_repo_grant : Str → Grant → Tables → Result
set_repo_grant org_id g t = elim g.subject_type [
  | user ↦
      if not (is_some (membership t.database org_id g.subject_id))
      then failed not_in_organization
      else done (put_grant g t)
  | team ↦
      if not (is_some (team_of t org_id g.subject_id))
      then failed no_such_team
      else done (put_grant g t)
]
