-- ===== src/TokenPolicy/Restriction.antt =====
-- What a restricted token reaches.
use chicoree.Prelude.{
  ◌≡◌, ◌≢◌, refl, sym, ap, ◌∙◌, ◌||◌, Bool, true, false, not, Option, none, some, List, [], ◌∷◌,
  if◌then◌else◌, Str, str_eq, str_eq_iff, includes, is_empty, filter, arith,
}
use chicoree.TokenPolicy.{
  Target, lists_repository, restriction_allows, distinct_from, normalized_ids, ids_or_all,
  normalize_restriction,
}

abbrev pub named : List Str → List Str
named = filter (λ id. not (is_empty id))

includes-cons :
    (x : Str) (xs : List Str) (s : Str) → str_eq x s ≡ false → includes (x ∷ xs) s ≡ includes xs s
unfolding includes
includes-cons x xs s e = rw e

includes-cons_eq :
    (x : Str) (xs : List Str) (s : Str) → str_eq x s ≡ true → includes (x ∷ xs) s ≡ true
unfolding includes
includes-cons_eq x xs s e = rw e

-- What was seen is left out; nothing else is lost.
includes-distinct_from :
    (seen xs : List Str) (s : Str)
    → includes seen s ≡ false
    → includes (distinct_from seen xs) s ≡ includes xs s
unfolding distinct_from
includes-distinct_from seen [] s h = refl
includes-distinct_from seen (x ∷ xs) s h = ground (
  arith,
  includes-distinct_from seen xs s,
  includes-distinct_from (x ∷ seen) xs s,
  includes-cons x xs s,
  includes-cons_eq x xs s,
  includes-cons x seen s,
  includes-cons x (distinct_from (x ∷ seen) xs) s,
  includes-cons_eq x (distinct_from (x ∷ seen) xs) s,
  str_eq_iff x s,
)

includes-named :
    (ids : List Str) (s : Str) → is_empty s ≡ false → includes (named ids) s ≡ includes ids s
unfolding includes
includes-named [] s h = refl
includes-named ([] ∷ ids) (c ∷ s) h = includes-named ids (c ∷ s) h
includes-named ((d ∷ id) ∷ ids) (c ∷ s) h =
    ap (λ b. str_eq (d ∷ id) (c ∷ s) || b) (includes-named ids (c ∷ s) h)
includes-named (id ∷ ids) [] h = cc

distinct-lists :
    (ids : List Str) (id : Str)
    → ids ≢ []
    → lists_repository (ids_or_all (distinct_from [] ids)) (some id)
      ≡ (if is_empty id then false else includes (distinct_from [] ids) id)
unfolding lists_repository ids_or_all distinct_from includes
distinct-lists [] id h = absurd (h refl)
distinct-lists (x ∷ xs) id h = refl

distinct-lists_none :
    (ids : List Str) → ids ≢ [] → lists_repository (ids_or_all (distinct_from [] ids)) none ≡ false
unfolding lists_repository ids_or_all distinct_from includes
distinct-lists_none [] h = absurd (h refl)
distinct-lists_none (x ∷ xs) h = refl

same_ids :
    (ids : List Str) (id : Str)
    → is_empty id ≡ false
    → includes (distinct_from [] (named ids)) id ≡ includes ids id
same_ids ids id h =
    includes-distinct_from [] (named ids) id (unfold includes in refl) ∙ includes-named ids id h

raw-lists_none : (ids : List Str) → lists_repository (some ids) none ≡ false
unfolding lists_repository
raw-lists_none ids = refl

raw-lists :
    (ids : List Str) (id : Str) {b : Bool}
    → (is_empty id ≡ false → b ≡ includes ids id)
    → (if is_empty id then false else b) ≡ lists_repository (some ids) (some id)
unfolding lists_repository
raw-lists ids [] h = refl
raw-lists ids (c ∷ id) h = h refl

normalized_ids-lists :
    (ids : List Str) (id : Option Str)
    → named ids ≢ []
    → lists_repository (normalized_ids (some ids)) id ≡ lists_repository (some ids) id
unfolding normalized_ids
normalized_ids-lists ids none h = distinct-lists_none (named ids) h ∙ sym (raw-lists_none ids)
normalized_ids-lists ids (some id) h =
    distinct-lists (named ids) id h ∙ raw-lists ids id (same_ids ids id)

restriction_allows-cong :
    (org : Str) (a b : Option (List Str)) (target : Target)
    → lists_repository a target.repository_id ≡ lists_repository b target.repository_id
    → restriction_allows (some (record { organization_id = org; repository_ids = a })) target
      ≡ restriction_allows (some (record { organization_id = org; repository_ids = b })) target
unfolding restriction_allows
restriction_allows-cong org a b target e = rw e

-- Normalizing a restriction to an organization and to repositories of which at least one is named
-- does not change what it reaches.
pub restriction_allows-normalize :
    (org : Str) (ids : List Str) (target : Target)
    → is_empty org ≡ false
    → named ids ≢ []
    → restriction_allows (normalize_restriction (some org) (some ids)) target
      ≡ restriction_allows
          (some (record { organization_id = org; repository_ids = some ids }))
          target
unfolding normalize_restriction
restriction_allows-normalize org ids target h k = rw h (
    restriction_allows-cong org (normalized_ids (some ids)) (some ids) target
      (normalized_ids-lists ids target.repository_id k))
