-- ===== src/Roles/Order.antt =====
-- The laws of `maxPermission` and `permissionAtLeast`.
use chicoree.Prelude.{◌≡◌, ◌||◌, Option, none, some, arith}
use chicoree.Roles.{RepoPermission, max_permission, permission_at_least}

-- The greater of two permissions suffices exactly where one of the two does.
pub permission_at_least-max :
    (a b : Option RepoPermission) (need : RepoPermission)
    → permission_at_least (max_permission a b) need
      ≡ (permission_at_least a need || permission_at_least b need)
unfolding permission_at_least max_permission
permission_at_least-max none b need = ground arith
permission_at_least-max (some a) none need = ground arith
permission_at_least-max (some a) (some b) need = ground arith
