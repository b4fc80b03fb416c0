-- ===== src/Quota/Pruning/Termination.antt =====
-- The fuel of a plan is enough where the chains of subjects are bounded.
use Prim.Native.Nat.{Ordering}
use native.Mathlib.Nat.{mul-le-mul_right}
use chicoree.Prelude.{
  ℕ, suc, ◌+◌, ◌*◌, ◌≤◌, ◌<◌, leb, ◌≡◌, refl, Bool, true, false, not, Option, none, some, List, [],
  ◌∷◌, All, Str, length, arith,
}
use chicoree.Quota.{
  ScopeManifest, ScopeTag, ScopeRepository, PruneReason, PrunePlan, State, untagged_since, last_tag,
  initial, all_live, is_live, manifests_by_id, usage,
}
use chicoree.Quota.Removal.{and_then, unless, remove_manifest}
use chicoree.Quota.Removal.Depth.{Succeeds, Succeeds-and_then, IsBelow, remove_manifest-Succeeds}
use chicoree.Quota.Pruning.{
  depth, until_fits, prune_leftover, tag_stays, drop_tag, image_stays, drop_image, prune_tag, prune,
  finish, start, plan_prune_to_fit,
}

-- The chains of subjects end: a manifest is deeper than its subject, at most as deep as there are
-- manifests. Digests are hashes, so no manifest can name one that names it.
pub record IsRanked (repos : List ScopeRepository) (rank : Str → ℕ) : Type 0 where
  pub bounded : (d : Str) → rank d ≤ length (all_live repos)
  pub below : All (λ r. All (IsBelow rank) r.manifests) repos

manifests_by_id-IsBelow :
    (rank : Str → ℕ) (rs : List ScopeRepository) (id : Str)
    → All (λ r. All (IsBelow rank) r.manifests) rs
    → All (IsBelow rank) (manifests_by_id rs id)
manifests_by_id-IsBelow rank [] id h = tt
manifests_by_id-IsBelow rank (r ∷ rs) id h = ground (arith, manifests_by_id-IsBelow rank rs id h.1)

-- The fuel is above what a state with few live manifests needs.
depth_enough : (n live r : ℕ) → live ≤ n → r ≤ n → live * suc n + r < suc n * suc n
depth_enough n live r h k = omega (arith, mul-le-mul_right (suc n) h)

module _ (repos : List ScopeRepository) (limit : ℕ) (rank : Str → ℕ)
    (ranked : IsRanked repos rank) where
  abbrev Few : State → Type 0
  Few a = length a.live ≤ length (all_live repos)

  removal-Succeeds :
      (repo : ScopeRepository) (digest : Str) (reason : PruneReason) (a : State)
      → Few a
      → Succeeds Few (remove_manifest repos repo (depth repos) digest reason a)
  removal-Succeeds repo digest reason a few =
      let n = length (all_live repos) in
      let done =
        remove_manifest-Succeeds repos repo rank n ranked.bounded
          (manifests_by_id-IsBelow rank repos repo.id ranked.below) (depth repos) digest reason a
          (depth_enough n (length a.live) (rank digest) few (ranked.bounded digest)) in
      record {
        result = done.result;
        returned = done.returned;
        fits = omega (arith, few, done.fits.fewer);
      }

  unless-Succeeds :
      (t : Bool) (f : State → Option State) (a : State)
      → Few a
      → Succeeds Few (f a)
      → Succeeds Few (unless t f a)
  unless-Succeeds true f a few h = record { result = a; returned = refl; fits = few }
  unless-Succeeds false f a few h = h

  until_fits-Succeeds {ℓ} :
      {A : Type ℓ} (f : A → State → Option State) (xs : List A)
      → ((x : A) (a : State) → Few a → Succeeds Few (f x a))
      → (a : State) → Few a
      → Succeeds Few (until_fits repos limit f xs a)
  unfolding until_fits
  until_fits-Succeeds f [] h a few = record { result = a; returned = refl; fits = few }
  until_fits-Succeeds f (x ∷ xs) h a few =
      unless-Succeeds (leb (usage repos a) limit)
        (λ b. and_then (f x b) (until_fits repos limit f xs)) a few
        (Succeeds-and_then Few Few (f x a) (until_fits repos limit f xs) (h x a few)
          (until_fits-Succeeds f xs h))

  prune_leftover-Succeeds :
      (x : ScopeRepository × ScopeManifest) (a : State)
      → Few a
      → Succeeds Few (prune_leftover repos limit x a)
  unfolding prune_leftover
  prune_leftover-Succeeds (repo, m) a few =
      unless-Succeeds (not (is_live a repo.id m.digest))
        (remove_manifest repos repo (depth repos) m.digest (untagged_since m.pushed_at)) a few
        (removal-Succeeds repo m.digest (untagged_since m.pushed_at) a few)

  drop_image-Succeeds :
      (repo : ScopeRepository) (t : ScopeTag) (a : State)
      → Few a
      → Succeeds Few (drop_image repos limit repo t a)
  unfolding drop_image
  drop_image-Succeeds repo t a few =
      unless-Succeeds (image_stays repos limit repo t a)
        (remove_manifest repos repo (depth repos) t.digest (last_tag t.name)) a few
        (removal-Succeeds repo t.digest (last_tag t.name) a few)

  prune_tag-Succeeds :
      (x : ScopeRepository × ScopeTag) (a : State)
      → Few a
      → Succeeds Few (prune_tag repos limit x a)
  unfolding prune_tag drop_tag
  prune_tag-Succeeds (repo, t) a few =
      unless-Succeeds (tag_stays repos limit repo t a)
        (λ b. drop_image repos limit repo t (drop_tag repos limit repo t b)) a few
        (drop_image-Succeeds repo t (drop_tag repos limit repo t a) few)

  module _ (locale_compare : Str → Str → Ordering) where
    prune-Succeeds : (a : State) → Few a → Succeeds Few (prune repos limit locale_compare a)
    unfolding prune
    prune-Succeeds a few =
        Succeeds-and_then Few Few _ _
          (until_fits-Succeeds (prune_leftover repos limit) _ prune_leftover-Succeeds a few)
          (until_fits-Succeeds (prune_tag repos limit) _ prune_tag-Succeeds)

    finish-returns :
        (before : ℕ) (o : Option State)
        → Succeeds Few o
        → (plan : PrunePlan) × (finish repos limit locale_compare before o ≡ some plan)
    unfolding finish
    finish-returns before none h = cc (h.returned)
    finish-returns before (some b) h = (_, refl)

    start-returns :
        (before : ℕ) (t : Bool)
        → (plan : PrunePlan) × (start repos limit locale_compare before t ≡ some plan)
    unfolding start initial
    start-returns before true = (_, refl)
    start-returns before false =
        finish-returns before (prune repos limit locale_compare (initial repos))
          (prune-Succeeds (initial repos) (omega arith))

    -- Where a rank of at most the number of manifests puts each manifest below its subject, the
    -- planner returns a plan.
    pub plan-returns :
        (plan : PrunePlan) × (plan_prune_to_fit repos limit locale_compare ≡ some plan)
    unfolding plan_prune_to_fit
    plan-returns = start-returns (usage repos (initial repos)) _
