-- ===== src/Tests/TeamSeats.antt =====
-- Somebody with a seat in a team and a grant of their own leaves the organization.
use chicoree.Prelude.{
  ◌≡◌, refl, true, false, some, [], ◌∷◌, str, str_eq, includes, is_some, if◌then◌else◌,
}
use chicoree.Roles.{RepoPermission, permission_at_least, max_permission, repo_permission}
use chicoree.Database.{Grant, user, team, membership}
use chicoree.Access.{granted_permission}
use chicoree.Teams.{
  Tables, failed, done, not_in_organization, set_repo_grant, put_grant, no_such_team,
  drop_organization_access, add_team_member,
}
use chicoree.Teams.Granting.{set_repo_grant-permission}
use chicoree.Teams.Leaving.{drop-permission}

abbrev tables : Tables
tables = record {
  teams = record { id = str "t"; organization_id = str "o"; slug = str "core" } ∷ [];
  database = record {
    users = [];
    organizations = [];
    proxies = [];
    settings = [];
    repositories =
        record {
          id = str "r";
          organization_id = str "o";
          name = str "app";
          visibility = str "private";
        }
        ∷ [];
    members = [];
    team_members = record { team_id = str "t"; user_id = str "u" } ∷ [];
    grants =
        record {
          repository_id = str "r";
          subject_type = user;
          subject_id = str "u";
          permission = str "push";
        }
        ∷ record {
          repository_id = str "r";
          subject_type = team;
          subject_id = str "t";
          permission = str "admin";
        }
        ∷ [];
  };
}

before : granted_permission tables.database (str "u") (str "r") ≡ some RepoPermission.admin
unfolding granted_permission str_eq max_permission repo_permission
before = refl

no_team : add_team_member (str "o") (str "x") (str "u") tables ≡ failed no_such_team
unfolding add_team_member
no_team = refl

drop-permission_example :
    permission_at_least
      (granted_permission
        (drop_organization_access (str "o") (str "u") tables).database
        (str "u")
        (str "r"))
      RepoPermission.pull
    ≡ false
unfolding includes str_eq
drop-permission_example =
    drop-permission (str "o") (str "u") (str "r") tables refl RepoPermission.pull
      ((λ e h. cc (e)), ((λ e h. refl), tt))

abbrev staffed : Tables
staffed = record tables {
  database = record tables.database {
    members = record { organization_id = str "o"; user_id = str "v"; role = str "guest" } ∷ [];
  };
}

abbrev pull_for_v : Grant
pull_for_v = record {
  repository_id = str "r";
  subject_type = user;
  subject_id = str "v";
  permission = str "pull";
}

set_repo_grant-permission_example :
    (set_repo_grant (str "o") pull_for_v staffed ≡ (
      if is_some (membership staffed.database (str "o") (str "v"))
      then done (put_grant pull_for_v staffed)
      else failed not_in_organization))
    × (permission_at_least
          (granted_permission (put_grant pull_for_v staffed).database (str "v") (str "r"))
          RepoPermission.pull
        ≡ true)
unfolding repo_permission str_eq
set_repo_grant-permission_example =
    set_repo_grant-permission (str "o") staffed pull_for_v RepoPermission.pull refl refl
