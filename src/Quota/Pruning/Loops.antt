-- ===== src/Quota/Pruning/Loops.antt =====
-- What holds between the states before and after the two loops.
use Prim.Native.Nat.{Ordering}
use mathlib.Core.List.{Memᴰ}
use chicoree.Prelude.{
  ℕ, ◌≡◌, refl, false, not, Bool-cases, Option, inl, inr, List, [], ◌∷◌, map, All, All-append,
  All-map, Str, leb,
}
use chicoree.Prelude.Sorting.{sort, All-sort}
use chicoree.Quota.{
  ScopeManifest, ScopeTag, ScopeRepository, PruneReason, State, usage, is_live, untagged_since,
  last_tag,
}
use chicoree.Quota.Removal.{drop_manifest, remove_manifest}
use chicoree.Quota.Removal.Relations.{
  OnSome, OnSome-chain, OnSome-and_then, OnSome-unless, OnSome-remove_manifest,
}
use chicoree.Quota.Pruning.{
  depth, leftovers_of, tags_in, older_manifest, older_tag, until_fits, prune_leftover, tag_stays,
  drop_tag, image_stays, drop_image, prune_tag, prune,
}

All-Memᴰ_self {ℓ} : {A : Type ℓ} (xs : List A) → All (λ x. Memᴰ x xs) xs
All-Memᴰ_self [] = tt
All-Memᴰ_self (x ∷ xs) = (
  Memᴰ.head refl,
  All-map (λ y. Memᴰ y xs) (λ y. Memᴰ y (x ∷ xs)) xs (λ y m. Memᴰ.tail m) (All-Memᴰ_self xs),
)

All-map_list {ℓ κ} :
    {A B : Type ℓ} (P : B → Type κ) (f : A → B) (xs : List A)
    → All (λ x. P (f x)) xs
    → All P (map f xs)
All-map_list P f [] h = tt
All-map_list P f (x ∷ xs) h = (h.0, All-map_list P f xs h.1)

All-unit {ℓ} : {A : Type ℓ} (xs : List A) → All {ℓ, 0} (λ x. Unit) xs
All-unit [] = tt
All-unit (x ∷ xs) = (tt, All-unit xs)

unfoldable pub IsTagOf : List ScopeRepository → ScopeRepository × ScopeTag → Type 0
IsTagOf repos p = Memᴰ p.0 repos × Memᴰ p.1 p.0.tags

All-tags_in :
    (P : ScopeRepository × ScopeTag → Type 0) (rs : List ScopeRepository)
    → All (λ r. All (λ t. P (r, t)) r.tags) rs
    → All P (tags_in rs)
unfolding tags_in
All-tags_in P [] h = tt
All-tags_in P (r ∷ rs) h =
    All-append P (map (λ t. (r, t)) r.tags) (tags_in rs) (All-map_list P (λ t. (r, t)) r.tags h.0)
      (All-tags_in P rs h.1)

pub tags_in-IsTagOf : (repos : List ScopeRepository) → All (IsTagOf repos) (tags_in repos)
unfolding IsTagOf
tags_in-IsTagOf repos = All-tags_in (IsTagOf repos) repos (
    All-map (λ r. Memᴰ r repos) _ repos
      (λ r m. All-map (λ t. Memᴰ t r.tags) _ r.tags (λ t k. (m, k)) (All-Memᴰ_self r.tags))
      (All-Memᴰ_self repos))

module _ (repos : List ScopeRepository) (limit : ℕ) where
  module _ {κ} (R : State → State → Type κ) (same : (st : State) → R st st)
      (chain : (a b c : State) → R a b → R b c → R a c) where
    pub OnSome-until_fits {ℓ ι} :
        {A : Type ℓ} (Q : A → Type ι) (f : A → State → Option State) (xs : List A)
        → ((x : A) (a : State) → Q x → OnSome (R a) (f x a))
        → All Q xs
        → (a : State) → OnSome (R a) (until_fits repos limit f xs a)
    unfolding until_fits
    OnSome-until_fits Q f [] h k a = same a
    OnSome-until_fits Q f (x ∷ xs) h k a =
        OnSome-unless R same chain (leb (usage repos a) limit) _ a (
          OnSome-and_then R same chain a (f x a) (until_fits repos limit f xs) (h x a k.0)
            (OnSome-until_fits Q f xs h k.1))

    -- A preorder that the removals and the dropping of a free tag respect holds of the whole.
    module _
        (dropped : (repo : ScopeRepository) (m : ScopeManifest) (digest : Str)
            (reason : PruneReason) (a : State)
          → R a (drop_manifest repo m digest reason a))
        (dropped_tag : (repo : ScopeRepository) (t : ScopeTag) (a : State)
          → IsTagOf repos (repo, t)
          → tag_stays repos limit repo t a ≡ false
          → R a (drop_tag repos limit repo t a)) where
      OnSome-removal :
          (repo : ScopeRepository) (fuel : ℕ) (digest : Str) (reason : PruneReason) (a : State)
          → OnSome (R a) (remove_manifest repos repo fuel digest reason a)
      OnSome-removal repo =
          OnSome-remove_manifest R same chain repos repo (λ m d r a e. dropped repo m d r a)

      OnSome-prune_leftover :
          (x : ScopeRepository × ScopeManifest) (a : State)
          → OnSome (R a) (prune_leftover repos limit x a)
      unfolding prune_leftover
      OnSome-prune_leftover (repo, m) a =
          OnSome-unless R same chain (not (is_live a repo.id m.digest))
            (remove_manifest repos repo (depth repos) m.digest (untagged_since m.pushed_at)) a
            (OnSome-removal repo (depth repos) m.digest (untagged_since m.pushed_at) a)

      pub OnSome-drop_image :
          (repo : ScopeRepository) (t : ScopeTag) (a : State)
          → OnSome (R a) (drop_image repos limit repo t a)
      unfolding drop_image
      OnSome-drop_image repo t a =
          OnSome-unless R same chain (image_stays repos limit repo t a)
            (remove_manifest repos repo (depth repos) t.digest (last_tag t.name)) a
            (OnSome-removal repo (depth repos) t.digest (last_tag t.name) a)

      pub OnSome-prune_tag :
          (x : ScopeRepository × ScopeTag) (a : State)
          → IsTagOf repos x
          → OnSome (R a) (prune_tag repos limit x a)
      unfolding prune_tag
      OnSome-prune_tag (repo, t) a q = elim (Bool-cases (tag_stays repos limit repo t a)) [
        | inl e ↦ rw e (same a)
        | inr e ↦ rw e (
            OnSome-chain R same chain a (drop_tag repos limit repo t a) _ (dropped_tag repo t a q e)
              (OnSome-drop_image repo t (drop_tag repos limit repo t a)))
      ]

      pub OnSome-leftovers :
          (xs : List (ScopeRepository × ScopeManifest)) (a : State)
          → OnSome (R a) (until_fits repos limit (prune_leftover repos limit) xs a)
      OnSome-leftovers xs =
          OnSome-until_fits (λ x. Unit) (prune_leftover repos limit) xs
            (λ x b q. OnSome-prune_leftover x b) (All-unit xs)

      pub OnSome-prune :
          (locale_compare : Str → Str → Ordering) (a : State)
          → OnSome (R a) (prune repos limit locale_compare a)
      unfolding prune
      OnSome-prune locale_compare a =
          OnSome-and_then R same chain a _ _
            (OnSome-leftovers (sort older_manifest (leftovers_of repos a repos)) a)
            (OnSome-until_fits (IsTagOf repos) (prune_tag repos limit) _ OnSome-prune_tag (
              All-sort (older_tag repos limit locale_compare) (IsTagOf repos) (tags_in repos)
                (tags_in-IsTagOf repos)))
