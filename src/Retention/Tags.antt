-- ===== src/Retention/Tags.antt =====
-- The verdict on a tag, and what the loops of the planner collect.
use Prim.Native.Nat.{Ordering}
use mathlib.Core.List.{append_assoc, append-nil}
use chicoree.Prelude.{
  ℕ, ◌<◌, ◌≡◌, refl, sym, ◌∙◌, true, false, Option, none, some, List, [], ◌∷◌, ◌++◌, find, includes,
  Str, arith,
}
use chicoree.TagRules.{TagRule, tag_flags, match_tag_glob}
use chicoree.Retention.{
  RetentionSettings, PlanTag, PlanManifest, PlannedTag, RetentionPlan, Reason, Verdict, keep,
  remove, age_days, parse_keep_matching, has_tag_rule, tag_verdict, plan_tags, push_tag,
  plan_manifests, push_manifest, plan_retention, newest_first, recent_names, empty_plan,
}

-- When the policy removes a tag: no rule protects it, no pattern keeps it, the policy has a rule
-- for tags, it is not among the recent ones, and it is too old where an age is set.
abbrev pub IsTooOld : Option ℕ → ℕ → ℕ → Type 0
IsTooOld none pushed_at now = Unit
IsTooOld (some days) pushed_at now = days < age_days pushed_at now

pub record IsRemovable (policy : RetentionSettings) (rules : List TagRule) (recent : List Str)
    (now : ℕ) (t : PlanTag) : Type 0 where
  pub unprotected : (tag_flags rules t.name).protected ≡ none
  pub unmatched :
      find (λ p. match_tag_glob p t.name) (parse_keep_matching policy.keep_matching) ≡ none
  pub ruled : has_tag_rule policy ≡ true
  pub not_recent : includes recent t.name ≡ false
  pub too_old : IsTooOld policy.delete_older_than_days t.pushed_at now

abbrev pub IsRemove : Verdict → Type 0
IsRemove (keep r) = ⊥
IsRemove (remove r) = Unit

module _ (policy : RetentionSettings) (rules : List TagRule) (recent : List Str) (now : ℕ)
    (t : PlanTag) where
  pub verdict→IsRemovable :
      IsRemove (tag_verdict policy now rules (parse_keep_matching policy.keep_matching) recent t)
      → IsRemovable policy rules recent now t
  unfolding tag_verdict
  verdict→IsRemovable h = ground arith

  pub IsRemovable→verdict :
      IsRemovable policy rules recent now t
      → IsRemove (tag_verdict policy now rules (parse_keep_matching policy.keep_matching) recent t)
  unfolding tag_verdict
  IsRemovable→verdict h = ground arith

abbrev pub planned : PlanTag → Reason → PlannedTag
planned t r = record { name = t.name; digest = t.digest; reason = r }

abbrev pub if_removed : PlanTag → Verdict → List PlannedTag
if_removed t (keep r) = []
if_removed t (remove r) = planned t r ∷ []

abbrev pub if_kept : PlanTag → Verdict → List PlannedTag
if_kept t (keep r) = planned t r ∷ []
if_kept t (remove r) = []

module _ (verdict : PlanTag → Verdict) where
  -- What the loop appends to its two lists.
  abbrev pub removed : List PlanTag → List PlannedTag
  removed [] = []
  removed (t ∷ ts) = if_removed t (verdict t) ++ removed ts

  abbrev pub kept : List PlanTag → List PlannedTag
  kept [] = []
  kept (t ∷ ts) = if_kept t (verdict t) ++ kept ts

  push_tag-tags :
      (t : PlanTag) (v : Verdict) (plan : RetentionPlan)
      → (push_tag t v plan).tags ≡ plan.tags ++ if_removed t v
  unfolding push_tag
  push_tag-tags t (keep r) plan = sym (append-nil plan.tags)
  push_tag-tags t (remove r) plan = refl

  push_tag-kept_tags :
      (t : PlanTag) (v : Verdict) (plan : RetentionPlan)
      → (push_tag t v plan).kept_tags ≡ plan.kept_tags ++ if_kept t v
  unfolding push_tag
  push_tag-kept_tags t (keep r) plan = refl
  push_tag-kept_tags t (remove r) plan = sym (append-nil plan.kept_tags)

  plan_tags-tags :
      (ts : List PlanTag) (plan : RetentionPlan)
      → (plan_tags verdict ts plan).tags ≡ plan.tags ++ removed ts
  unfolding plan_tags
  plan_tags-tags [] plan = sym (append-nil plan.tags)
  plan_tags-tags (t ∷ ts) plan =
      rw (plan_tags-tags ts (push_tag t (verdict t) plan), push_tag-tags t (verdict t) plan)
        (append_assoc plan.tags (if_removed t (verdict t)) (removed ts))

  plan_tags-kept_tags :
      (ts : List PlanTag) (plan : RetentionPlan)
      → (plan_tags verdict ts plan).kept_tags ≡ plan.kept_tags ++ kept ts
  unfolding plan_tags
  plan_tags-kept_tags [] plan = sym (append-nil plan.kept_tags)
  plan_tags-kept_tags (t ∷ ts) plan =
      rw
        (
          plan_tags-kept_tags ts (push_tag t (verdict t) plan),
          push_tag-kept_tags t (verdict t) plan,
        )
        (append_assoc plan.kept_tags (if_kept t (verdict t)) (kept ts))

push_manifest-tags :
    (m : PlanManifest) (v : Verdict) (plan : RetentionPlan)
    → ((push_manifest m v plan).tags ≡ plan.tags)
      × ((push_manifest m v plan).kept_tags ≡ plan.kept_tags)
unfolding push_manifest
push_manifest-tags m (keep r) plan = (refl, refl)
push_manifest-tags m (remove r) plan = (refl, refl)

-- The loop over the manifests leaves the tags alone.
plan_manifests-tags :
    (verdict : PlanManifest → Verdict) (ms : List PlanManifest) (plan : RetentionPlan)
    → ((plan_manifests verdict ms plan).tags ≡ plan.tags)
      × ((plan_manifests verdict ms plan).kept_tags ≡ plan.kept_tags)
unfolding plan_manifests
plan_manifests-tags verdict [] plan = (refl, refl)
plan_manifests-tags verdict (m ∷ ms) plan =
    let (a, b) = plan_manifests-tags verdict ms (push_manifest m (verdict m) plan) in
    let (c, d) = push_manifest-tags m (verdict m) plan in (a ∙ c, b ∙ d)

module _ (locale_compare : Str → Str → Ordering) (tags : List PlanTag)
    (untagged : List PlanManifest) (policy : RetentionSettings) (rules : List TagRule)
    (now : ℕ) where
  abbrev pub plan : RetentionPlan
  plan = plan_retention locale_compare tags untagged policy rules now

  abbrev pub sorted : List PlanTag
  sorted = newest_first locale_compare tags

  abbrev pub recent : List Str
  recent = recent_names locale_compare policy sorted

  abbrev pub verdict : PlanTag → Verdict
  verdict = tag_verdict policy now rules (parse_keep_matching policy.keep_matching) recent

  pub tags-removed : plan.tags ≡ removed verdict sorted
  unfolding plan_retention
  tags-removed = (plan_manifests-tags _ untagged _).0 ∙ plan_tags-tags verdict sorted empty_plan

  pub kept_tags-kept : plan.kept_tags ≡ kept verdict sorted
  unfolding plan_retention
  kept_tags-kept =
      (plan_manifests-tags _ untagged _).1 ∙ plan_tags-kept_tags verdict sorted empty_plan
