-- ===== src/Tests/Retention.antt =====
-- A small repository under a policy.
use Prim.Native.Nat.{Ordering, compare}
use mathlib.Core.List.{Mem, Perm}
use chicoree.Prelude.{
  ℕ, ◌*◌, ◌≡◌, ◌≤◌, ◌++◌, refl, true, false, none, some, List, [], ◌∷◌, map, filter, length, min,
  All, Str, str,
}
use chicoree.Prelude.Sorting.{sort, or_else}
use chicoree.TagRules.{TagRule, match_tag_glob, match_tag_glob?, tag_flags}
use chicoree.Retention.{
  RetentionSettings, PlanTag, PlanManifest, RetentionPlan, older_not_recent, plan_retention,
  recent_names, newest_first,
}
use chicoree.Retention.Tags.{IsRemovable}
use chicoree.Retention.Plan.{
  tag_key, planned_key, plan-tags-perm, plan-removes_exactly, plan-keeps_last,
}
use chicoree.Retention.Manifests.{goes, digests, plan-manifests_exactly}

-- One order of names that a host may have.
by_code : Str → Str → Ordering
by_code [] [] = Ordering.eq
by_code [] (_ ∷ _) = Ordering.lt
by_code (_ ∷ _) [] = Ordering.gt
by_code (a ∷ s) (b ∷ t) = or_else (compare a b) (by_code s t)

abbrev day : ℕ
day = 86_400_000

abbrev tags : List PlanTag
tags =
    record { name = str "old"; digest = str "d1"; pushed_at = 1 * day }
    ∷ record { name = str "new"; digest = str "d2"; pushed_at = 90 * day }
    ∷ record { name = str "v1"; digest = str "d1"; pushed_at = 2 * day }
    ∷ []

abbrev untagged : List PlanManifest
untagged =
    record {
      digest = str "m1";
      pushed_at = 1 * day;
      is_child = false;
      is_referrer = false;
      has_referrers = false;
    }
    ∷ record {
      digest = str "m2";
      pushed_at = 1 * day;
      is_child = true;
      is_referrer = false;
      has_referrers = false;
    }
    ∷ []

abbrev policy : RetentionSettings
policy = record {
  enabled = true;
  keep_last = some 1;
  keep_matching = some (str "stable, lts*");
  delete_older_than_days = some 30;
  delete_untagged_after_days = some 7;
}

abbrev rules : List TagRule
rules =
    record { pattern = str "v*"; immutable = false; protected = true; repository_id = none } ∷ []

abbrev plan : RetentionPlan
plan = plan_retention by_code tags untagged policy rules (100 * day)

planner : Unit {0}
unfolding plan_retention sort tag_flags match_tag_glob match_tag_glob? by_code
planner = tt

plan_tests :
    (plan.tags
      ≡ record { name = str "old"; digest = str "d1"; reason = older_not_recent 99 30 (some 1) }
        ∷ [])
    × (digests plan.manifests ≡ str "m1" ∷ [])
    × (length plan.kept_tags ≡ 2)
unfolding planner
plan_tests = (refl, refl, refl)

plan-removes_exactly_example :
    All
      (λ e.
        (t : PlanTag) × Mem t tags
        × (planned_key e ≡ tag_key t)
        × IsRemovable policy rules
            (recent_names by_code policy (newest_first by_code tags))
            (100 * day)
            t)
      plan.tags
    × ((t : PlanTag)
        → Mem t tags
        → IsRemovable policy rules
            (recent_names by_code policy (newest_first by_code tags))
            (100 * day)
            t
        → Mem (tag_key t) (map planned_key plan.tags))
plan-removes_exactly_example = plan-removes_exactly by_code tags untagged policy rules (100 * day)

plan-tags-perm_example :
    Perm (map planned_key plan.tags ++ map planned_key plan.kept_tags) (map tag_key tags)
plan-tags-perm_example = plan-tags-perm by_code tags untagged policy rules (100 * day)

plan-keeps_last_example : min 1 (length tags) ≤ length plan.kept_tags
plan-keeps_last_example = plan-keeps_last by_code tags untagged policy rules (100 * day) 1 refl

plan-manifests_exactly_example :
    digests plan.manifests ≡ map (λ m. m.digest) (filter (goes (some 7) (100 * day)) untagged)
plan-manifests_exactly_example =
    plan-manifests_exactly by_code tags untagged policy rules (100 * day)
