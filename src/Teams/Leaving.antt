-- ===== src/Teams/Leaving.antt =====
-- What somebody who leaves an organization keeps.
use chicoree.Prelude.{
  &&-left, &&-right, ap, All-map, ◌≡◌, refl, sym, ◌∙◌, Bool, true, false, not, ◌&&◌, Bool-cases,
  inl, inr, List, [], ◌∷◌, filter, any, All, if◌then◌else◌, Str, str_eq, str_eq→eq, includes,
  is_empty,
}
use chicoree.Roles.{RepoPermission, permission_at_least}
use chicoree.Database.{Database, TeamMember, Grant, SubjectType, user, team}
use chicoree.Access.{grant_applies, granted_permission}
use chicoree.Access.Granted.{gives, granted_permission-any}
use chicoree.Teams.{
  Tables, team_ids, repository_ids, is_seat, is_own_grant, drop_organization_access,
}

fails : (a b : Bool) → (a ≡ true → b ≡ true) → b ≡ false → a ≡ false
fails true b h e = sym (h refl) ∙ e
fails false b h e = refl

any-filter-not {ℓ} :
    {A : Type ℓ} (p q : A → Bool) (xs : List A)
    → All (λ x. p x ≡ true → q x ≡ true) xs
    → any p (filter (λ x. not (q x)) xs) ≡ false
any-filter-not p q [] h = refl
any-filter-not p q (x ∷ xs) h = elim (Bool-cases (q x)) [
  | inl e ↦ rw e (any-filter-not p q xs h.1)
  | inr e ↦ rw (e, fails (p x) (q x) h.0 e) (any-filter-not p q xs h.1)
]

All-always {ℓ κ} : {A : Type ℓ} (P : A → Type κ) (xs : List A) → ((x : A) → P x) → All P xs
All-always P [] h = tt
All-always P (x ∷ xs) h = (h x, All-always P xs h)

module _ (user_id : Str) where
  seat-removed :
      (ids : List Str) (team_id : Str)
      → includes ids team_id ≡ true
      → (m : TeamMember) → str_eq m.team_id team_id && str_eq m.user_id user_id ≡ true
      → is_seat ids user_id m ≡ true
  unfolding is_seat
  seat-removed ids team_id h m e =
      let same = str_eq→eq m.team_id team_id (&&-left (str_eq m.team_id team_id) _ e) in
      rw (ap (includes ids) same, h) (&&-right (str_eq m.team_id team_id) _ e)

  -- No seat is left in a team of the organization.
  seats-removed :
      (ids : List Str) (team_id : Str) (ms : List TeamMember)
      → includes ids team_id ≡ true
      → any
          (λ m. str_eq m.team_id team_id && str_eq m.user_id user_id)
          (if is_empty ids then ms else filter (λ m. not (is_seat ids user_id m)) ms)
        ≡ false
  unfolding includes
  seats-removed [] team_id ms h = cc (h)
  seats-removed (x ∷ ids) team_id ms h =
      any-filter-not _ (is_seat (x ∷ ids) user_id) ms
        (All-always _ ms (seat-removed (x ∷ ids) team_id h))

module _ (org_id user_id repository_id : Str) (t : Tables)
    (here : includes (repository_ids t.database.repositories org_id) repository_id ≡ true) where
  abbrev after : Database
  after = (drop_organization_access org_id user_id t).database

  -- The teams that have grants in the repository are teams of the organization.
  abbrev pub IsTeamOf : Grant → Type 0
  IsTeamOf g =
      g.subject_type ≡ team
      → str_eq g.repository_id repository_id ≡ true
      → includes (team_ids t.teams org_id) g.subject_id ≡ true

  grant_of_user :
      (need : RepoPermission) (g : Grant)
      → g.subject_type ≡ user
      → grant_applies after user_id repository_id g && gives need g ≡ true
      → (str_eq g.repository_id repository_id ≡ true) × (str_eq g.subject_id user_id ≡ true)
  unfolding grant_applies
  grant_of_user need g e h =
      let raw = &&-left (grant_applies after user_id repository_id g) (gives need g) h in
      let applies = rw e at raw in
      (
        &&-left (str_eq g.repository_id repository_id) _ applies,
        &&-right (str_eq g.repository_id repository_id) _ applies,
      )

  grant_of_team :
      (need : RepoPermission) (g : Grant)
      → g.subject_type ≡ team
      → grant_applies after user_id repository_id g && gives need g ≡ true
      → (str_eq g.repository_id repository_id ≡ true)
        × (any (λ m. str_eq m.team_id g.subject_id && str_eq m.user_id user_id) after.team_members
            ≡ true)
  unfolding grant_applies
  grant_of_team need g e h =
      let raw = &&-left (grant_applies after user_id repository_id g) (gives need g) h in
      let applies = rw e at raw in
      (
        &&-left (str_eq g.repository_id repository_id) _ applies,
        &&-right (str_eq g.repository_id repository_id) _ applies,
      )

  after-team_members :
      (team_id : Str)
      → includes (team_ids t.teams org_id) team_id ≡ true
      → any (λ m. str_eq m.team_id team_id && str_eq m.user_id user_id) after.team_members ≡ false
  unfolding drop_organization_access
  after-team_members team_id h =
      seats-removed user_id (team_ids t.teams org_id) team_id t.database.team_members h

  grant-removed :
      (need : RepoPermission) (g : Grant)
      → IsTeamOf g
      → (s : SubjectType) → g.subject_type ≡ s
      → grant_applies after user_id repository_id g && gives need g ≡ true
      → is_own_grant (repository_ids t.database.repositories org_id) user_id g ≡ true
  unfolding is_own_grant
  grant-removed need g inside user e h =
      let both = grant_of_user need g e h in
      rw
        (
          ap (includes (repository_ids t.database.repositories org_id))
              (str_eq→eq g.repository_id repository_id both.0),
          here,
          e,
        )
        both.1
  grant-removed need g inside team e h =
      let both = grant_of_team need g e h in
      cc (both.1, after-team_members g.subject_id (inside e both.0))

  grants-removed :
      (need : RepoPermission) (ids : List Str) (gs : List Grant)
      → includes ids repository_id ≡ true
      → All
          (λ g.
            grant_applies after user_id repository_id g && gives need g ≡ true
            → is_own_grant ids user_id g ≡ true)
          gs
      → any
          (λ g. grant_applies after user_id repository_id g && gives need g)
          (if is_empty ids then gs else filter (λ g. not (is_own_grant ids user_id g)) gs)
        ≡ false
  unfolding includes
  grants-removed need [] gs h k = cc (h)
  grants-removed need (x ∷ ids) gs h k = any-filter-not _ (is_own_grant (x ∷ ids) user_id) gs k

  grants_after :
      (need : RepoPermission)
      → All
          (λ g.
            grant_applies after user_id repository_id g && gives need g ≡ true
            → is_own_grant (repository_ids t.database.repositories org_id) user_id g ≡ true)
          t.database.grants
      → any (λ g. grant_applies after user_id repository_id g && gives need g) after.grants ≡ false
  unfolding drop_organization_access
  grants_after need k =
      grants-removed need (repository_ids t.database.repositories org_id) t.database.grants here k

  -- Whoever leaves an organization has no permission by grants in its repositories any more, where
  -- grants to teams in the repository are grants to teams of the organization.
  pub drop-permission :
      (need : RepoPermission)
      → All IsTeamOf t.database.grants
      → permission_at_least
          (granted_permission
            (drop_organization_access org_id user_id t).database
            user_id
            repository_id)
          need
        ≡ false
  drop-permission need inside =
      granted_permission-any after user_id repository_id need
      ∙ grants_after need (
          All-map IsTeamOf _ t.database.grants (λ g i. grant-removed need g i g.subject_type refl)
            inside)
