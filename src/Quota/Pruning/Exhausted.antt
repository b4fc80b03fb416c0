-- ===== src/Quota/Pruning/Exhausted.antt =====
-- What is left where a plan does not reach its limit.
use Prim.Native.Nat.{Ordering}
use mathlib.Core.Option.{some-injective}
use chicoree.Prelude.{
  subst, ℕ, ◌<◌, leb, ◌≡◌, ◌⊎◌, Bool, true, false, not, ◌&&◌, Bool-cases, Option, none, some, inl,
  inr, List, [], ◌∷◌, All, Str, str_eq, any, filter, is_some, arith,
}
use chicoree.Prelude.Sorting.{sort, All-sort, sort-All}
use chicoree.TagRules.{tag_flags}
use chicoree.Quota.{
  PrunePlan, ScopeTag, ScopeRepository, PruneStep, State, has_pair, has_protected, usage, initial,
  tags_by_id, tags_of, is_protected,
}
use chicoree.Quota.Removal.{and_then}
use chicoree.Quota.Removal.Relations.{OnSome}
use chicoree.Quota.Pruning.{
  tags_in, until_fits, leftovers_of, older_manifest, prune_leftover, tag_stays, drop_tag,
  drop_image, prune_tag, older_tag, prune, finish, start, plan_prune_to_fit,
}
use chicoree.Quota.Pruning.Loops.{IsTagOf, tags_in-IsTagOf, OnSome-until_fits, OnSome-leftovers}
use chicoree.Quota.Pruning.Safety.{OnSome-map}
use chicoree.Quota.Pruning.Logs.{
  removes, IsLogged, Logs, Logs-same, Logs-chain, drop_manifest-Logs, drop_tag-removes,
  drop_tag-Logs, drop_image-Logs, prune_tag-Logs,
}

-- A tag is removed, or protected, or shares its image with a protected one.
pub IsDone : List ScopeRepository → List PruneStep → ScopeRepository × ScopeTag → Type 0
IsDone repos steps (repo, t) =
    (any (removes repo.id t.name) steps ≡ true)
    ⊎ ((is_some (tag_flags repo.rules t.name).protected ≡ true)
        ⊎ (has_protected repo (filter (λ u. str_eq u.digest t.digest) (tags_by_id repos repo.id))
            ≡ true))

any-filter {ℓ} :
    {A : Type ℓ} (p q r : A → Bool) (xs : List A)
    → any p (filter (λ x. q x && r x) xs) ≡ true
    → any p (filter q xs) ≡ true
any-filter p q r [] h = cc
any-filter p q r (x ∷ xs) h = ground (arith, any-filter p q r xs)

module _ (repos : List ScopeRepository) (limit : ℕ) where
  tag_stays-IsDone :
      (repo : ScopeRepository) (t : ScopeTag) (a : State)
      → IsLogged a
      → tag_stays repos limit repo t a ≡ true
      → IsDone repos a.steps (repo, t)
  unfolding tag_stays IsDone is_protected tags_of
  tag_stays-IsDone repo t a l h = elim (Bool-cases (has_pair a.removed_tags repo.id t.name)) [
    | inl e ↦ inl (l repo.id t.name e)
    | inr e ↦ elim (Bool-cases (is_some (tag_flags repo.rules t.name).protected)) [
      | inl p ↦ inr (inl p)
      | inr p ↦ inr (
          inr (
            any-filter (λ u. is_some (tag_flags repo.rules u.name).protected)
              (λ u. str_eq u.digest t.digest) (λ u. not (has_pair a.removed_tags repo.id u.name))
              (tags_by_id repos repo.id) (rw (e, p) at h)))
    ]
  ]

  prune_tag-IsDone :
      (x : ScopeRepository × ScopeTag) (a : State)
      → IsLogged a
      → OnSome (λ b. IsDone repos b.steps x) (prune_tag repos limit x a)
  unfolding prune_tag IsDone
  prune_tag-IsDone (repo, t) a l = elim (Bool-cases (tag_stays repos limit repo t a)) [
    | inl e ↦ rw e (tag_stays-IsDone repo t a l e)
    | inr e ↦ rw e (
        OnSome-map (Logs (drop_tag repos limit repo t a)) (λ b. IsDone repos b.steps (repo, t))
          (λ b h. inl (h.keeps repo.id t.name (drop_tag-removes repos limit repo t a)))
          (drop_image repos limit repo t (drop_tag repos limit repo t a))
          (drop_image-Logs repos limit repo t (drop_tag repos limit repo t a)))
  ]

  IsDone-Logs :
      (x : ScopeRepository × ScopeTag) (a b : State)
      → Logs a b
      → IsDone repos a.steps x
      → IsDone repos b.steps x
  unfolding IsDone
  IsDone-Logs (repo, t) a b h (inl e) = inl (h.keeps repo.id t.name e)
  IsDone-Logs (repo, t) a b h (inr e) = inr e

  -- The rest of the loop, behind the round for `x`.
  rest-IsDone :
      (x : ScopeRepository × ScopeTag) (xs : List (ScopeRepository × ScopeTag)) (c : State)
      → IsDone repos c.steps x
      → (o : Option State) → OnSome (Logs c) o
      → OnSome (λ b. limit < usage repos b → All (IsDone repos b.steps) xs) o
      → OnSome (λ b. limit < usage repos b → All (IsDone repos b.steps) (x ∷ xs)) o
  rest-IsDone x xs c d none h k = tt
  rest-IsDone x xs c d (some b) h k = λ over. (IsDone-Logs x c b h d, k over)

  round-IsDone :
      (x : ScopeRepository × ScopeTag) (xs : List (ScopeRepository × ScopeTag)) (a : State)
      (o : Option State)
      → IsLogged a
      → All (IsTagOf repos) xs
      → OnSome (Logs a) o
      → OnSome (λ c. IsDone repos c.steps x) o
      → ((c : State)
          → IsLogged c
          → OnSome
              (λ b. limit < usage repos b → All (IsDone repos b.steps) xs)
              (until_fits repos limit (prune_tag repos limit) xs c))
      → OnSome
          (λ b. limit < usage repos b → All (IsDone repos b.steps) (x ∷ xs))
          (and_then o (until_fits repos limit (prune_tag repos limit) xs))
  round-IsDone x xs a none l q h d rest = tt
  round-IsDone x xs a (some c) l q h d rest =
      rest-IsDone x xs c d (until_fits repos limit (prune_tag repos limit) xs c)
        (OnSome-until_fits repos limit Logs Logs-same Logs-chain (IsTagOf repos)
          (prune_tag repos limit) xs (prune_tag-Logs repos limit) q c)
        (rest c (h.logged l))

  until_fits-IsDone :
      (xs : List (ScopeRepository × ScopeTag))
      → All (IsTagOf repos) xs
      → (a : State) → IsLogged a
      → OnSome
          (λ b. limit < usage repos b → All (IsDone repos b.steps) xs)
          (until_fits repos limit (prune_tag repos limit) xs a)
  unfolding until_fits
  until_fits-IsDone [] q a l = λ over. tt
  until_fits-IsDone (x ∷ xs) q a l = elim (Bool-cases (leb (usage repos a) limit)) [
    | inl e ↦ rw e (λ over. ground arith)
    | inr e ↦ rw e (
        round-IsDone x xs a (prune_tag repos limit x a) l q.1 (prune_tag-Logs repos limit x a q.0)
          (prune_tag-IsDone x a l) (until_fits-IsDone xs q.1))
  ]

  from-IsDone :
      (xs : List (ScopeRepository × ScopeTag))
      → All (IsTagOf repos) xs
      → (o : Option State) → OnSome IsLogged o
      → OnSome
          (λ b. limit < usage repos b → All (IsDone repos b.steps) xs)
          (and_then o (until_fits repos limit (prune_tag repos limit) xs))
  from-IsDone xs q none l = tt
  from-IsDone xs q (some c) l = until_fits-IsDone xs q c l

  module _ (locale_compare : Str → Str → Ordering) where
    prune-IsDone :
        (a : State)
        → IsLogged a
        → OnSome
            (λ b. limit < usage repos b → All (IsDone repos b.steps) (tags_in repos))
            (prune repos limit locale_compare a)
    unfolding prune
    prune-IsDone a l =
        let cmp = older_tag repos limit locale_compare in
        let leftovers = sort older_manifest (leftovers_of repos a repos) in
        OnSome-map
          (λ b. limit < usage repos b → All (IsDone repos b.steps) (sort cmp (tags_in repos)))
          (λ b. limit < usage repos b → All (IsDone repos b.steps) (tags_in repos))
          (λ b h over. sort-All cmp (IsDone repos b.steps) (tags_in repos) (h over)) _
          (from-IsDone (sort cmp (tags_in repos))
            (All-sort cmp (IsTagOf repos) (tags_in repos) (tags_in-IsTagOf repos)) _
            (OnSome-map (Logs a) IsLogged (λ b h. h.logged l)
              (until_fits repos limit (prune_leftover repos limit) leftovers a)
              (OnSome-leftovers repos limit Logs Logs-same Logs-chain drop_manifest-Logs
                (λ repo t b q e. drop_tag-Logs repos limit repo t b) leftovers a)))

    finish-IsDone :
        (before : ℕ) (o : Option State)
        → OnSome (λ b. limit < usage repos b → All (IsDone repos b.steps) (tags_in repos)) o
        → OnSome
            (λ plan. plan.unmet ≡ true → All (IsDone repos plan.steps) (tags_in repos))
            (finish repos limit locale_compare before o)
    unfolding finish
    finish-IsDone before none h = tt
    finish-IsDone before (some b) h = λ e. h (ground arith)

    start-IsDone :
        (t : Bool) (before : ℕ)
        → OnSome
            (λ plan. plan.unmet ≡ true → All (IsDone repos plan.steps) (tags_in repos))
            (start repos limit locale_compare before t)
    unfolding start initial
    start-IsDone true before = λ e. cc (e)
    start-IsDone false before =
        finish-IsDone before (prune repos limit locale_compare (initial repos))
          (prune-IsDone (initial repos) (λ id name e. cc (e)))

    OnSome-at {κ} :
        (P : PrunePlan → Type κ) (o : Option PrunePlan) (plan : PrunePlan)
        → OnSome P o
        → o ≡ some plan
        → P plan
    OnSome-at P none plan h e = cc (e)
    OnSome-at P (some q) plan h e = subst P (some-injective q plan e) h

    -- A plan that leaves the scope above its limit has no tag left that it could remove: each is
    -- removed, or protected, or names the same image as a protected one.
    pub plan_unmet-IsDone :
        (plan : PrunePlan)
        → plan_prune_to_fit repos limit locale_compare ≡ some plan
        → plan.unmet ≡ true
        → All (IsDone repos plan.steps) (tags_in repos)
    unfolding plan_prune_to_fit
    plan_unmet-IsDone plan e over =
        OnSome-at _ _ plan (start-IsDone _ (usage repos (initial repos))) e over
