-- ===== src/Quota/Pruning.antt =====
-- `planPruneToFit` of web/src/lib/quota-enforce-shared.ts: leftovers first, then tags, the oldest
-- first. `none` means that the fuel of the removals ran out.
pub mod Loops
pub mod Safety
pub mod Logs
pub mod Exhausted
pub mod Termination
use Prim.Native.Nat.{Ordering, compare}
use chicoree.Prelude.{
  ℕ, suc, ◌*◌, Bool, true, false, not, ◌||◌, ◌&&◌, Option, none, some, List, [], ◌∷◌, ◌++◌, map,
  ltb, leb, is_some, if◌then◌else◌, Str, is_empty, filter, length,
}
use chicoree.Prelude.Sorting.{sort, or_else}
use chicoree.TagRules.{tag_flags}
use chicoree.Quota.{
  ScopeManifest, ScopeTag, ScopeRepository, Kind, PruneReason, untagged_since, pushed, last_tag,
  PruneStep, PrunePlan, State, is_live, has_pair, initial, all_live, usage, tags_of, live_parents,
  is_protected,
}
use chicoree.Quota.Removal.{and_then, unless, each, remove_manifest}

-- Deep enough: subjects form chains of at most as many manifests as there are.
abbrev pub depth : List ScopeRepository → ℕ
depth repos = let n = length (all_live repos) in suc n * suc n

-- A subject that is still there; a manifest with one is no leftover.
subject_lives : State → Str → Option Str → Bool
subject_lives st repo_id none = false
subject_lives st repo_id (some s) = if is_empty s then false else is_live st repo_id s

module _ (repos : List ScopeRepository) where
  is_leftover : State → ScopeRepository → ScopeManifest → Bool
  unfolding subject_lives tags_of live_parents
  is_leftover st repo m =
      is_empty (tags_of repos st repo.id m.digest)
      && is_empty (live_parents repos st repo.id m.digest)
      && not (subject_lives st repo.id m.subject_digest)

  pub leftovers_of : State → List ScopeRepository → List (ScopeRepository × ScopeManifest)
  unfolding is_leftover
  leftovers_of st [] = []
  leftovers_of st (r ∷ rs) =
      map (λ m. (r, m)) (filter (is_leftover st r) r.manifests) ++ leftovers_of st rs

pub tags_in : List ScopeRepository → List (ScopeRepository × ScopeTag)
tags_in [] = []
tags_in (r ∷ rs) = map (λ t. (r, t)) r.tags ++ tags_in rs

abbrev pub older_manifest : (a b : ScopeRepository × ScopeManifest) → Ordering
older_manifest a b = compare a.1.pushed_at b.1.pushed_at

module _ (repos : List ScopeRepository) (limit : ℕ) where
  -- The head of both loops: `if (usage() <= limitBytes) break;`
  pub until_fits {ℓ} : {A : Type ℓ} → (A → State → Option State) → List A → State → Option State
  unfolding usage
  until_fits f [] st = some st
  until_fits f (x ∷ xs) st =
      unless (leb (usage repos st) limit) (λ st. and_then (f x st) (until_fits f xs)) st

  pub prune_leftover : ScopeRepository × ScopeManifest → State → Option State
  unfolding remove_manifest
  prune_leftover (repo, m) st =
      unless (not (is_live st repo.id m.digest))
        (remove_manifest repos repo (depth repos) m.digest (untagged_since m.pushed_at)) st

  pub tag_stays : ScopeRepository → ScopeTag → State → Bool
  unfolding is_protected
  tag_stays repo t st =
      has_pair st.removed_tags repo.id t.name
      || is_some (tag_flags repo.rules t.name).protected
      || is_protected repos st repo t.digest

  pub drop_tag : ScopeRepository → ScopeTag → State → State
  drop_tag repo t st = record st {
    removed_tags = (repo.id, t.name) ∷ st.removed_tags;
    steps =
        st.steps
        ++ record {
          repository_id = repo.id;
          repository = repo.path;
          kind = Kind.tag;
          ref = t.name;
          reason = pushed t.pushed_at;
        }
          ∷ [];
  }

  -- The image goes with its last tag.
  image_stays : ScopeRepository → ScopeTag → State → Bool
  unfolding tags_of live_parents
  image_stays repo t st = not (
      is_empty (tags_of repos st repo.id t.digest)
      && is_empty (live_parents repos st repo.id t.digest))

  pub drop_image : ScopeRepository → ScopeTag → State → Option State
  unfolding image_stays remove_manifest
  drop_image repo t st =
      unless (image_stays repo t st)
        (remove_manifest repos repo (depth repos) t.digest (last_tag t.name)) st

  pub prune_tag : ScopeRepository × ScopeTag → State → Option State
  unfolding tag_stays drop_tag drop_image
  prune_tag (repo, t) st =
      unless (tag_stays repo t st) (λ st. drop_image repo t (drop_tag repo t st)) st

  module _ (locale_compare : Str → Str → Ordering) where
    abbrev pub older_tag : (a b : ScopeRepository × ScopeTag) → Ordering
    older_tag a b = or_else (compare a.1.pushed_at b.1.pushed_at) (locale_compare a.1.name b.1.name)

    pub prune : State → Option State
    unfolding until_fits prune_leftover prune_tag leftovers_of tags_in
    prune st =
        and_then (until_fits prune_leftover (sort older_manifest (leftovers_of repos st repos)) st)
          (until_fits prune_tag (sort older_tag (tags_in repos)))

    pub finish : ℕ → Option State → Option PrunePlan
    unfolding usage
    finish before none = none
    finish before (some st) =
        let after = usage repos st in
        some (record {
          steps = st.steps;
          before_bytes = before;
          after_bytes = after;
          unmet = ltb limit after;
        })

    -- Behind `usage() <= limitBytes`.
    pub start : ℕ → Bool → Option PrunePlan
    unfolding prune finish initial
    start before true =
        some (record { steps = []; before_bytes = before; after_bytes = before; unmet = false })
    start before false = finish before (prune (initial repos))

    unfoldable pub plan_prune_to_fit : Option PrunePlan
    unfolding start
    plan_prune_to_fit = let before = usage repos (initial repos) in start before (leb before limit)
