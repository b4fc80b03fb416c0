-- ===== src/Teams/Granting.antt =====
-- What a grant gives.
use chicoree.Prelude.{
  ◌≡◌, refl, ◌∙◌, Bool, true, ◌&&◌, Bool-cases, some, inl, inr, List, [], ◌∷◌, any, is_some, Str,
  str_eq_refl, arith, if◌then◌else◌,
}
use chicoree.Roles.{RepoPermission, repo_permission, permission_at_least}
use chicoree.Database.{Database, Grant, user, membership}
use chicoree.Access.{grant_applies, granted_permission}
use chicoree.Access.Granted.{gives, granted_permission-any}
use chicoree.Teams.{
  Tables, done, failed, not_in_organization, upsert_grant, put_grant, set_repo_grant,
}

any-upsert_grant :
    (p : Grant → Bool) (g : Grant) (gs : List Grant) → p g ≡ true → any p (upsert_grant g gs) ≡ true
unfolding upsert_grant
any-upsert_grant p g [] h = ground arith
any-upsert_grant p g (x ∷ gs) h = ground (arith, any-upsert_grant p g gs h)

permission_at_least_refl : (p : RepoPermission) → permission_at_least (some p) p ≡ true
unfolding permission_at_least
permission_at_least_refl p = ground arith

module _ (org_id : Str) (t : Tables) (g : Grant) (p : RepoPermission)
    (reads : repo_permission g.permission ≡ some p) (own : g.subject_type ≡ user) where
  gives-own : (db : Database) → grant_applies db g.subject_id g.repository_id g && gives p g ≡ true
  unfolding grant_applies
  gives-own db =
      rw (own, str_eq_refl g.repository_id, str_eq_refl g.subject_id, reads)
        (permission_at_least_refl p)

  put_grant-permission :
      permission_at_least
        (granted_permission (put_grant g t).database g.subject_id g.repository_id)
        p
      ≡ true
  unfolding put_grant
  put_grant-permission =
      let db = (put_grant g t).database in
      granted_permission-any db g.subject_id g.repository_id p
      ∙ any-upsert_grant (λ x. grant_applies db g.subject_id g.repository_id x && gives p x) g
          t.database.grants (gives-own db)

  -- A grant to a person is refused where they are no member of the organization; else it is stored,
  -- and gives at least its permission in the repository.
  pub set_repo_grant-permission :
      (set_repo_grant org_id g t ≡ (
        if is_some (membership t.database org_id g.subject_id)
        then done (put_grant g t)
        else failed not_in_organization))
      × (permission_at_least
            (granted_permission (put_grant g t).database g.subject_id g.repository_id)
            p
          ≡ true)
  unfolding set_repo_grant
  set_repo_grant-permission = (
    elim (Bool-cases (is_some (membership t.database org_id g.subject_id))) [
      | inl e ↦ rw (own, e) refl
      | inr e ↦ rw (own, e) refl
    ],
    put_grant-permission,
  )
