-- ===== src/Database.antt =====
-- The tables that the authorization code reads, as lists of rows. A query by equality is the first
-- row that fits; the columns are those that the code looks at. web/src/db holds the full schema.
use chicoree.Prelude.{◌&&◌, Option, List, find, Str, str_eq}

pub record Organization : Type 0 where
  pub id : Str
  pub slug : Str

pub record User : Type 0 where
  pub id : Str
  pub role : Str

pub record OrganizationProxy : Type 0 where
  pub organization_id : Str
  pub upstream_url : Str

pub record OrganizationSettings : Type 0 where
  pub organization_id : Str
  pub default_visibility : Option Str

pub record Repository : Type 0 where
  pub id : Str
  pub organization_id : Str
  pub name : Str
  pub visibility : Str

pub record Member : Type 0 where
  pub organization_id : Str
  pub user_id : Str
  pub role : Str

pub record TeamMember : Type 0 where
  pub team_id : Str
  pub user_id : Str

pub data SubjectType : Type 0 where
  user team : SubjectType

pub record Grant : Type 0 where
  pub repository_id : Str
  pub subject_type : SubjectType
  pub subject_id : Str
  pub permission : Str

pub record Database : Type 0 where
  pub users : List User
  pub organizations : List Organization
  pub proxies : List OrganizationProxy
  pub settings : List OrganizationSettings
  pub repositories : List Repository
  pub members : List Member
  pub team_members : List TeamMember
  pub grants : List Grant

module _ (db : Database) where
  abbrev pub user_by_id : Str → Option User
  user_by_id id = find (λ u. str_eq u.id id) db.users

  abbrev pub org_by_slug : Str → Option Organization
  org_by_slug slug = find (λ o. str_eq o.slug slug) db.organizations

  abbrev pub proxy_of : Str → Option OrganizationProxy
  proxy_of org_id = find (λ p. str_eq p.organization_id org_id) db.proxies

  abbrev pub settings_of : Str → Option OrganizationSettings
  settings_of org_id = find (λ s. str_eq s.organization_id org_id) db.settings

  abbrev pub repository_by_name : Str → Str → Option Repository
  repository_by_name org_id name =
      find (λ r. str_eq r.organization_id org_id && str_eq r.name name) db.repositories

  abbrev pub membership : Str → Str → Option Member
  membership org_id user_id =
      find (λ m. str_eq m.organization_id org_id && str_eq m.user_id user_id) db.members
