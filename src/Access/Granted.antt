-- ===== src/Access/Granted.antt =====
-- The loop over the grants finds the highest permission.
use chicoree.Prelude.{
  ◌≡◌, refl, ◌∙◌, ap, Bool, ◌||◌, ◌&&◌, Option, none, List, [], ◌∷◌, filter, any, Str, arith,
}
use chicoree.Roles.{RepoPermission, repo_permission, max_permission, permission_at_least}
use chicoree.Roles.Order.{permission_at_least-max}
use chicoree.Database.{Database, Grant}
use chicoree.Access.{grant_applies, best_permission, granted_permission}

abbrev pub gives : RepoPermission → Grant → Bool
gives need g = permission_at_least (repo_permission g.permission) need

or_assoc : (a b c : Bool) → ((a || b) || c) ≡ (a || (b || c))
or_assoc a b c = ground arith

any-filter : (p q : Grant → Bool) (gs : List Grant) → any q (filter p gs) ≡ any (λ g. p g && q g) gs
any-filter p q [] = refl
any-filter p q (g ∷ gs) = ground (arith, any-filter p q gs)

none_first : (need : RepoPermission) (b : Bool) → (permission_at_least none need || b) ≡ b
unfolding permission_at_least
none_first need b = ground arith

module _ (db : Database) where
  best_permission-any :
      (best : Option RepoPermission) (gs : List Grant) (need : RepoPermission)
      → permission_at_least (best_permission db best gs) need
        ≡ (permission_at_least best need || any (gives need) gs)
  unfolding best_permission
  best_permission-any best [] need = ground arith
  best_permission-any best (g ∷ gs) need =
      best_permission-any (max_permission best (repo_permission g.permission)) gs need
      ∙ ap (λ b. b || any (gives need) gs)
          (permission_at_least-max best (repo_permission g.permission) need)
      ∙ or_assoc (permission_at_least best need) _ _

  -- The grants of a person suffice for a permission exactly where one row that applies to them in
  -- the repository does.
  pub granted_permission-any :
      (user_id repository_id : Str) (need : RepoPermission)
      → permission_at_least (granted_permission db user_id repository_id) need
        ≡ any (λ g. grant_applies db user_id repository_id g && gives need g) db.grants
  unfolding granted_permission
  granted_permission-any user_id repository_id need =
      best_permission-any none (filter (grant_applies db user_id repository_id) db.grants) need
      ∙ none_first need _
      ∙ any-filter (grant_applies db user_id repository_id) (gives need) db.grants
