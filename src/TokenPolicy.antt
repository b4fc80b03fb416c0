-- ===== src/TokenPolicy.antt =====
-- web/src/lib/token-policy-shared.ts: the restriction of a token to an organization and to some of
-- its repositories. How long a token lives is in the child `Lifetime`.
pub mod Restriction
pub mod Lifetime
use chicoree.Prelude.{
  ℕ, ◌+◌, ◌-◌, ◌*◌, ◌/◌, Bool, true, false, not, Option, none, some, List, [], ◌∷◌, ltb, leb, ◌==◌,
  min, max, if◌then◌else◌, Str, str_eq, includes, is_empty, filter,
}

pub record TokenRestriction : Type 0 where
  pub organization_id : Str
  pub repository_ids : Option (List Str)

pub record Target : Type 0 where
  pub organization_id : Str
  pub repository_id : Option Str

lists_repository : Option (List Str) → Option Str → Bool
unfolding includes
lists_repository none id = true
lists_repository (some ids) none = false
lists_repository (some ids) (some id) = if is_empty id then false else includes ids id

unfoldable pub restriction_allows : Option TokenRestriction → Target → Bool
unfolding lists_repository str_eq
restriction_allows none target = true
restriction_allows (some r) target =
    if not (str_eq r.organization_id target.organization_id)
    then false
    else lists_repository r.repository_ids target.repository_id

-- `new Set(ids)`: each value once, where it first stands.
distinct_from : List Str → List Str → List Str
unfolding includes
distinct_from seen [] = []
distinct_from seen (x ∷ xs) =
    let fresh = x ∷ distinct_from (x ∷ seen) xs in
    let again = distinct_from seen xs in if includes seen x then again else fresh

ids_or_all : List Str → Option (List Str)
ids_or_all [] = none
ids_or_all (x ∷ xs) = some (x ∷ xs)

normalized_ids : Option (List Str) → Option (List Str)
unfolding distinct_from ids_or_all
normalized_ids none = none
normalized_ids (some ids) = ids_or_all (distinct_from [] (filter (λ id. not (is_empty id)) ids))

unfoldable pub normalize_restriction : Option Str → Option (List Str) → Option TokenRestriction
unfolding normalized_ids
normalize_restriction none ids = none
normalize_restriction (some org) ids =
    if is_empty org
    then none
    else some (record { organization_id = org; repository_ids = normalized_ids ids })
