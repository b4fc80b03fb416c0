-- ===== src/Quota/Pruning/Safety.antt =====
-- What pruning never does: remove a protected tag, or raise the usage.
use Prim.Native.Nat.{Ordering}
use mathlib.Core.List.{Memᴰ}
use chicoree.Prelude.{
  ℕ, ◌-◌, ◌≤◌, ◌≡◌, refl, Bool, true, false, Option, none, some, get_or, List, [], ◌∷◌, All,
  All-append, Str, arith,
}
use chicoree.TagRules.{tag_flags}
use chicoree.Quota.{
  Blob, Entry, entry, get, set, ScopeManifest, ScopeTag, ScopeRepository, Kind, PruneReason,
  PruneStep, State, release_blobs, usage_of, blob_size, usage, initial,
}
use chicoree.Quota.Removal.{drop_manifest}
use chicoree.Quota.Removal.Relations.{OnSome}
use chicoree.Quota.Pruning.{tag_stays, drop_tag, prune, finish, start, plan_prune_to_fit}
use chicoree.Quota.Pruning.Loops.{IsTagOf, OnSome-prune}

-- A step on a tag names a tag of a repository of the scope, and no rule of that protects it.
pub record IsFreeTag (repos : List ScopeRepository) (s : PruneStep) : Type 0 where
  pub repo : ScopeRepository
  pub tag : ScopeTag
  pub in_scope : Memᴰ repo repos
  pub in_repo : Memᴰ tag repo.tags
  pub same_id : s.repository_id ≡ repo.id
  pub same_name : s.ref ≡ tag.name
  pub unprotected : (tag_flags repo.rules tag.name).protected ≡ none

abbrev pub KindFits : List ScopeRepository → Kind → PruneStep → Type 0
KindFits repos Kind.manifest s = Unit
KindFits repos Kind.tag s = IsFreeTag repos s

abbrev pub StepFits : List ScopeRepository → PruneStep → Type 0
StepFits repos s = KindFits repos s.kind s

abbrev KeepsFits : List ScopeRepository → State → State → Type 0
KeepsFits repos a b = All (StepFits repos) a.steps → All (StepFits repos) b.steps

abbrev Lowers : List ScopeRepository → State → State → Type 0
Lowers repos a b = usage repos b ≤ usage repos a

pub OnSome-map {ℓ κ} :
    {A : Type ℓ} (P Q : A → Type κ)
    → ((a : A) → P a → Q a)
    → (o : Option A) → OnSome P o
    → OnSome Q o
OnSome-map P Q f none h = tt
OnSome-map P Q f (some a) h = f a h

module _ (repos : List ScopeRepository) (limit : ℕ) where
  tag_stays-unprotected :
      (repo : ScopeRepository) (t : ScopeTag) (a : State)
      → tag_stays repos limit repo t a ≡ false
      → (tag_flags repo.rules t.name).protected ≡ none
  unfolding tag_stays
  tag_stays-unprotected repo t a h = ground arith

  drop_tag-KeepsFits :
      (repo : ScopeRepository) (t : ScopeTag) (a : State)
      → IsTagOf repos (repo, t)
      → tag_stays repos limit repo t a ≡ false
      → KeepsFits repos a (drop_tag repos limit repo t a)
  unfolding drop_tag IsTagOf
  drop_tag-KeepsFits repo t a q e h = All-append (StepFits repos) a.steps _ h (
    record {
      repo = repo;
      tag = t;
      in_scope = q.0;
      in_repo = q.1;
      same_id = refl;
      same_name = refl;
      unprotected = tag_stays-unprotected repo t a e;
    },
    tt,
  )

  drop_manifest-KeepsFits :
      (repo : ScopeRepository) (m : ScopeManifest) (digest : Str) (reason : PruneReason) (a : State)
      → KeepsFits repos a (drop_manifest repo m digest reason a)
  unfolding drop_manifest
  drop_manifest-KeepsFits repo m digest reason a h =
      All-append (StepFits repos) a.steps _ h (tt, tt)

  prune-KeepsFits :
      (locale_compare : Str → Str → Ordering) (a : State)
      → OnSome (KeepsFits repos a) (prune repos limit locale_compare a)
  prune-KeepsFits =
      OnSome-prune repos limit (KeepsFits repos) (λ a h. h) (λ a b c h k x. k (h x))
        drop_manifest-KeepsFits drop_tag-KeepsFits

usage_of-set :
    (sizes refs : List Entry) (d : Str) (v : ℕ)
    → v ≤ get_or (get refs d) 0
    → usage_of sizes (set refs d v) ≤ usage_of sizes refs
unfolding usage_of set get
usage_of-set sizes [] d v h = ground arith
usage_of-set sizes (entry key value ∷ refs) d v h = ground (arith, usage_of-set sizes refs d v)

pred-le : (o : Option ℕ) → get_or o 1 - 1 ≤ get_or o 0
pred-le none = omega arith
pred-le (some n) = omega arith

usage_of-release :
    (sizes refs : List Entry) (bs : List Blob)
    → usage_of sizes (release_blobs refs bs) ≤ usage_of sizes refs
unfolding release_blobs
usage_of-release sizes refs [] = omega arith
usage_of-release sizes refs (b ∷ bs) =
    let v = get_or (get refs b.digest) 1 - 1 in
    omega (
      arith,
      usage_of-release sizes (set refs b.digest v) bs,
      usage_of-set sizes refs b.digest v (pred-le (get refs b.digest)),
    )

module _ (repos : List ScopeRepository) (limit : ℕ) (locale_compare : Str → Str → Ordering) where
  prune-Lowers : (a : State) → OnSome (Lowers repos a) (prune repos limit locale_compare a)
  unfolding usage drop_manifest drop_tag
  prune-Lowers =
      OnSome-prune repos limit (Lowers repos) (λ a. omega arith) (λ a b c h k. omega arith)
        (λ repo m d r a. usage_of-release (blob_size repos) a.blob_refs m.blobs)
        (λ repo t a q e. omega arith) locale_compare

  finish-All :
      (before : ℕ) (o : Option State) (P : PruneStep → Type 0)
      → OnSome (λ b. All P b.steps) o
      → OnSome (λ plan. All P plan.steps) (finish repos limit locale_compare before o)
  unfolding finish
  finish-All before none P h = tt
  finish-All before (some b) P h = h

  finish-lowers :
      (before : ℕ) (o : Option State)
      → OnSome (λ b. usage repos b ≤ before) o
      → OnSome
          (λ plan. (plan.after_bytes ≤ before) × (plan.before_bytes ≡ before))
          (finish repos limit locale_compare before o)
  unfolding finish
  finish-lowers before none h = tt
  finish-lowers before (some b) h = (h, refl)

  start-KeepsFits :
      (t : Bool) (before : ℕ)
      → OnSome (λ plan. All (StepFits repos) plan.steps) (start repos limit locale_compare before t)
  unfolding start initial
  start-KeepsFits true before = tt
  start-KeepsFits false before =
      finish-All before (prune repos limit locale_compare (initial repos)) (StepFits repos) (
        OnSome-map (KeepsFits repos (initial repos)) (λ b. All (StepFits repos) b.steps)
          (λ b h. h tt) (prune repos limit locale_compare (initial repos))
          (prune-KeepsFits repos limit locale_compare (initial repos)))

  -- Pruning never removes a protected tag: each step on a tag names a tag of a repository of the
  -- scope that no rule of the repository protects.
  pub plan-spares_protected :
      OnSome
        (λ plan. All (StepFits repos) plan.steps)
        (plan_prune_to_fit repos limit locale_compare)
  unfolding plan_prune_to_fit
  plan-spares_protected = start-KeepsFits _ (usage repos (initial repos))

  start-lowers :
      (t : Bool)
      → OnSome
          (λ plan.
            (plan.after_bytes ≤ usage repos (initial repos))
            × (plan.before_bytes ≡ usage repos (initial repos)))
          (start repos limit locale_compare (usage repos (initial repos)) t)
  unfolding start
  start-lowers true = (omega arith, refl)
  start-lowers false = finish-lowers (usage repos (initial repos)) _ (prune-Lowers (initial repos))

  -- Pruning never raises the usage, which it measures first on the whole scope.
  pub plan_lowers :
      OnSome
        (λ plan.
          (plan.after_bytes ≤ usage repos (initial repos))
          × (plan.before_bytes ≡ usage repos (initial repos)))
        (plan_prune_to_fit repos limit locale_compare)
  unfolding plan_prune_to_fit
  plan_lowers = start-lowers _
