-- ===== src/Retention/Manifests.antt =====
-- Which untagged manifests a plan removes.
use Prim.Native.Nat.{Ordering}
use mathlib.Core.List.{append_assoc, append-nil, map-append}
use chicoree.Prelude.{
  ℕ, ◌≡◌, refl, sym, ap, ◌∙◌, Bool, false, Option, none, some, List, [], ◌∷◌, ◌++◌, Str, arith, ltb,
  filter, map, not, ◌&&◌,
}
use chicoree.TagRules.{TagRule}
use chicoree.Retention.{
  RetentionSettings, PlanTag, PlanManifest, PlannedManifest, RetentionPlan, Verdict, keep, remove,
  age_days, manifest_verdict, plan_tags, push_tag, plan_manifests, push_manifest, plan_retention,
  newest_first, empty_plan,
}

-- An untagged manifest goes where an age is set, it is older than that, and it neither belongs to
-- an index nor is attached to another manifest nor has one attached to it.
abbrev pub goes : Option ℕ → ℕ → PlanManifest → Bool
goes none now m = false
goes (some days) now m =
    not m.is_child
    && (not m.is_referrer && (not m.has_referrers && ltb days (age_days m.pushed_at now)))

abbrev pub if_removed : PlanManifest → Verdict → List Str
if_removed m (keep r) = []
if_removed m (remove r) = m.digest ∷ []

abbrev pub digests : List PlannedManifest → List Str
digests = map (λ e. e.digest)

-- The verdict on a manifest is the test.
module _ (policy : RetentionSettings) (now : ℕ) where
  verdict-goes :
      (days : Option ℕ) (m : PlanManifest) (rest : List PlanManifest)
      → if_removed m (manifest_verdict policy now days m)
          ++ map (λ u. u.digest) (filter (goes days now) rest)
        ≡ map (λ u. u.digest) (filter (goes days now) (m ∷ rest))
  unfolding manifest_verdict
  verdict-goes none m rest = refl
  verdict-goes (some days) m rest = ground arith

  push_manifest-digests :
      (m : PlanManifest) (v : Verdict) (plan : RetentionPlan)
      → digests (push_manifest m v plan).manifests ≡ digests plan.manifests ++ if_removed m v
  unfolding push_manifest
  push_manifest-digests m (keep r) plan = sym (append-nil (digests plan.manifests))
  push_manifest-digests m (remove r) plan = simp map-append

plan_manifests-digests :
    (policy : RetentionSettings) (now : ℕ) (days : Option ℕ) (ms : List PlanManifest)
    (plan : RetentionPlan)
    → digests (plan_manifests (manifest_verdict policy now days) ms plan).manifests
      ≡ digests plan.manifests ++ map (λ m. m.digest) (filter (goes days now) ms)
unfolding plan_manifests
plan_manifests-digests policy now days [] plan = sym (append-nil (digests plan.manifests))
plan_manifests-digests policy now days (m ∷ ms) plan =
    let v = manifest_verdict policy now days m in
    rw
      (
        plan_manifests-digests policy now days ms (push_manifest m v plan),
        push_manifest-digests policy now m v plan,
      )
      (append_assoc (digests plan.manifests) (if_removed m v) _
        ∙ ap (λ l. digests plan.manifests ++ l) (verdict-goes policy now days m ms))

push_tag-manifests :
    (t : PlanTag) (v : Verdict) (plan : RetentionPlan)
    → (push_tag t v plan).manifests ≡ plan.manifests
unfolding push_tag
push_tag-manifests t (keep r) plan = refl
push_tag-manifests t (remove r) plan = refl

plan_tags-manifests :
    (verdict : PlanTag → Verdict) (ts : List PlanTag) (plan : RetentionPlan)
    → (plan_tags verdict ts plan).manifests ≡ plan.manifests
unfolding plan_tags
plan_tags-manifests verdict [] plan = refl
plan_tags-manifests verdict (t ∷ ts) plan =
    plan_tags-manifests verdict ts (push_tag t (verdict t) plan)
    ∙ push_tag-manifests t (verdict t) plan

-- A plan removes, in the given order, exactly the untagged manifests that are older than the
-- policy's age and that no index, no subject and no referrer holds; none where no age is set.
pub plan-manifests_exactly :
    (locale_compare : Str → Str → Ordering) (tags : List PlanTag) (untagged : List PlanManifest)
    (policy : RetentionSettings) (rules : List TagRule) (now : ℕ)
    → digests (plan_retention locale_compare tags untagged policy rules now).manifests
      ≡ map (λ m. m.digest) (filter (goes policy.delete_untagged_after_days now) untagged)
unfolding plan_retention
plan-manifests_exactly locale_compare tags untagged policy rules now =
    plan_manifests-digests policy now policy.delete_untagged_after_days untagged _
    ∙ ap
        (λ l.
          digests l
          ++ map (λ m. m.digest) (filter (goes policy.delete_untagged_after_days now) untagged))
        (plan_tags-manifests _ (newest_first locale_compare tags) empty_plan)
