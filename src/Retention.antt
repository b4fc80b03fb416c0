-- ===== src/Retention.antt =====
-- web/src/lib/retention-shared.ts: what a retention policy removes.
-- A time is its number of milliseconds. A reason is the data of its sentence. The order of names
-- (`localeCompare`) is the host's, and a parameter.
pub mod Tags
pub mod Plan
pub mod Manifests
use Prim.Native.Nat.{Ordering, compare}
use chicoree.Prelude.{
  ℕ, ◌-◌, ◌/◌, Bool, true, false, not, ◌||◌, Option, none, some, List, [], ◌∷◌, ◌++◌, map, ◌==◌,
  ltb, if◌then◌else◌, get_or, is_some, Str, is_empty, is_space, split_words, trim, filter, find,
  take, includes,
}
use chicoree.Prelude.Sorting.{sort, or_else}
use chicoree.TagRules.{TagRule, match_tag_glob, tag_flags}

pub record RetentionSettings : Type 0 where
  pub enabled : Bool
  pub keep_last : Option ℕ
  pub keep_matching : Option Str
  pub delete_older_than_days : Option ℕ
  pub delete_untagged_after_days : Option ℕ

abbrev pub empty_retention : RetentionSettings
empty_retention = record {
  enabled = false;
  keep_last = none;
  keep_matching = none;
  delete_older_than_days = none;
  delete_untagged_after_days = none;
}

pub record PlanTag : Type 0 where
  pub name : Str
  pub digest : Str
  pub pushed_at : ℕ

pub record PlanManifest : Type 0 where
  pub digest : Str
  pub pushed_at : ℕ
  pub is_child : Bool
  pub is_referrer : Bool
  pub has_referrers : Bool

-- Why a tag or a manifest stays or goes: the values that the sentence quotes.
pub data Reason : Type 0 where
  protected_by keeps_pattern : (pattern : Str) → Reason
  no_tag_rule no_untagged_rule index_part referrer referred : Reason
  among_recent not_recent : (keep_last : Option ℕ) → Reason
  within older : (age days : ℕ) → Reason
  older_not_recent : (age days : ℕ) (keep_last : Option ℕ) → Reason

pub record PlannedTag : Type 0 where
  pub name : Str
  pub digest : Str
  pub reason : Reason

pub record PlannedManifest : Type 0 where
  pub digest : Str
  pub reason : Reason

pub record RetentionPlan : Type 0 where
  pub tags : List PlannedTag
  pub manifests : List PlannedManifest
  pub kept_tags : List PlannedTag
  pub kept_manifests : List PlannedManifest

abbrev day_ms : ℕ
day_ms = 86_400_000

-- The truncated difference is the `Math.max` with 0.
unfoldable pub age_days : ℕ → ℕ → ℕ
age_days d now = (now - d) / day_ms

unfoldable pub parse_keep_matching : Option Str → List Str
unfolding split_words trim is_space
parse_keep_matching value =
    filter (λ w. not (is_empty w))
      (map trim (split_words (λ c. is_space c || c == b',') (get_or value [])))

unfoldable pub has_tag_rule : RetentionSettings → Bool
has_tag_rule policy = is_some policy.keep_last || is_some policy.delete_older_than_days

-- Where one round of a loop puts its entry.
pub data Verdict : Type 0 where
  keep remove : Reason → Verdict

module _ (policy : RetentionSettings) (now : ℕ) where
  -- The chain of tests of the loop over the tags, behind the two that look for a rule or a pattern.
  age_verdict : ℕ → Option ℕ → Verdict
  unfolding age_days
  age_verdict pushed_at none = remove (not_recent policy.keep_last)
  age_verdict pushed_at (some days) =
      let age = age_days pushed_at now in
      if ltb days age
      then remove (
          if is_some policy.keep_last
          then older_not_recent age days policy.keep_last
          else older age days)
      else keep (within age days)

  rule_verdict : List Str → PlanTag → Verdict
  unfolding age_verdict has_tag_rule includes
  rule_verdict recent t =
      if not (has_tag_rule policy)
      then keep no_tag_rule
      else if includes recent t.name
      then keep (among_recent policy.keep_last)
      else age_verdict t.pushed_at policy.delete_older_than_days

  pattern_verdict : Option Str → List Str → PlanTag → Verdict
  unfolding rule_verdict
  pattern_verdict (some p) recent t = keep (keeps_pattern p)
  pattern_verdict none recent t = rule_verdict recent t

  protected_verdict : Option TagRule → List Str → List Str → PlanTag → Verdict
  unfolding pattern_verdict
  protected_verdict (some r) keep_patterns recent t = keep (protected_by r.pattern)
  protected_verdict none keep_patterns recent t =
      pattern_verdict (find (λ p. match_tag_glob p t.name) keep_patterns) recent t

  pub tag_verdict : List TagRule → List Str → List Str → PlanTag → Verdict
  unfolding protected_verdict
  tag_verdict rules keep_patterns recent t =
      protected_verdict (tag_flags rules t.name).protected keep_patterns recent t

  -- The chain of tests of the loop over the untagged manifests.
  manifest_verdict : Option ℕ → PlanManifest → Verdict
  unfolding age_days
  manifest_verdict none m = keep no_untagged_rule
  manifest_verdict (some days) m =
      let age = age_days m.pushed_at now in
      if m.is_child
      then keep index_part
      else if m.is_referrer
      then keep referrer
      else if m.has_referrers
      then keep referred
      else if ltb days age
      then remove (older age days)
      else keep (within age days)

push_tag : PlanTag → Verdict → RetentionPlan → RetentionPlan
push_tag t (keep r) plan = record plan {
  kept_tags = plan.kept_tags ++ record { name = t.name; digest = t.digest; reason = r } ∷ [];
}
push_tag t (remove r) plan = record plan {
  tags = plan.tags ++ record { name = t.name; digest = t.digest; reason = r } ∷ [];
}

push_manifest : PlanManifest → Verdict → RetentionPlan → RetentionPlan
push_manifest m (keep r) plan = record plan {
  kept_manifests = plan.kept_manifests ++ record { digest = m.digest; reason = r } ∷ [];
}
push_manifest m (remove r) plan = record plan {
  manifests = plan.manifests ++ record { digest = m.digest; reason = r } ∷ [];
}

-- The two loops, each over what is left of its list.
plan_tags : (PlanTag → Verdict) → List PlanTag → RetentionPlan → RetentionPlan
unfolding push_tag
plan_tags verdict [] plan = plan
plan_tags verdict (t ∷ ts) plan = plan_tags verdict ts (push_tag t (verdict t) plan)

plan_manifests : (PlanManifest → Verdict) → List PlanManifest → RetentionPlan → RetentionPlan
unfolding push_manifest
plan_manifests verdict [] plan = plan
plan_manifests verdict (m ∷ ms) plan = plan_manifests verdict ms (push_manifest m (verdict m) plan)

abbrev empty_plan : RetentionPlan
empty_plan = record { tags = []; manifests = []; kept_tags = []; kept_manifests = [] }

-- The names of the `keepLast` newest tags, none where the policy sets no number.
abbrev pub recent_of : Option ℕ → List PlanTag → List Str
recent_of none sorted = []
recent_of (some n) sorted = map (λ t. t.name) (take n sorted)

module _ (locale_compare : Str → Str → Ordering) where
  -- Newest first, then by name.
  abbrev pub newer : PlanTag → PlanTag → Ordering
  newer a b = or_else (compare b.pushed_at a.pushed_at) (locale_compare a.name b.name)

  abbrev pub newest_first : List PlanTag → List PlanTag
  newest_first = sort newer

  abbrev pub recent_names : RetentionSettings → List PlanTag → List Str
  recent_names policy sorted = recent_of policy.keep_last sorted

  unfoldable pub plan_retention :
      List PlanTag → List PlanManifest → RetentionSettings → List TagRule → ℕ → RetentionPlan
  unfolding plan_tags plan_manifests tag_verdict manifest_verdict parse_keep_matching
  plan_retention tags untagged policy rules now =
      let keep_patterns = parse_keep_matching policy.keep_matching in
      let sorted = newest_first tags in
      let recent = recent_names policy sorted in
      plan_manifests (manifest_verdict policy now policy.delete_untagged_after_days) untagged
        (plan_tags (tag_verdict policy now rules keep_patterns recent) sorted empty_plan)
