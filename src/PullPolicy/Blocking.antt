-- ===== src/PullPolicy/Blocking.antt =====
-- Which summaries a policy blocks.
use chicoree.Prelude.{
  ℕ, ◌≤◌, ◌≡◌, Bool, true, false, Option, none, some, List, [], ◌∷◌, ◌&&◌, ◌||◌, ltb, leb, any,
  is_some, arith,
}
use chicoree.PullPolicy.{
  Level, critical, high, medium, low, Severity, SeveritySummary, Policy, violation_at, violation,
}

-- How grave a rated finding is, and from where on a level blocks.
abbrev pub gravity : Severity → ℕ
gravity Severity.critical = 4
gravity Severity.high = 3
gravity Severity.medium = 2
gravity Severity.low = 1
gravity Severity.unknown = 0

abbrev pub threshold : Level → ℕ
threshold critical = 4
threshold high = 3
threshold medium = 2
threshold low = 1

abbrev pub rated : List Severity
rated = Severity.critical ∷ Severity.high ∷ Severity.medium ∷ Severity.low ∷ []

abbrev pub blocked : SeveritySummary → Option Level → Bool → Bool
blocked summary none unrated = false
blocked summary (some level) unrated =
    any (λ s. leb (threshold level) (gravity s) && ltb 0 (summary s)) rated
    || (unrated && ltb 0 (summary Severity.unknown))

violation_at-blocked :
    (level : Option Level) (summary : SeveritySummary) (policy : Policy)
    → is_some (violation_at level summary policy) ≡ blocked summary level policy.unrated
unfolding violation_at
violation_at-blocked none summary policy = ground arith
violation_at-blocked (some critical) summary policy = ground arith
violation_at-blocked (some high) summary policy = ground arith
violation_at-blocked (some medium) summary policy = ground arith
violation_at-blocked (some low) summary policy = ground arith

-- A scanned image violates the pull policy exactly where it has a finding at least as grave as the
-- level, or an unrated one where the policy counts those, and never without a level.
pub violation-blocked :
    (summary : SeveritySummary) (policy : Policy)
    → is_some (violation (some summary) policy) ≡ blocked summary policy.level policy.unrated
unfolding violation
violation-blocked summary policy = violation_at-blocked policy.level summary policy

blocked_monotone :
    (summary : SeveritySummary) (l k : Level) (unrated : Bool)
    → threshold k ≤ threshold l
    → blocked summary (some l) unrated ≡ true
    → blocked summary (some k) unrated ≡ true
blocked_monotone summary critical k unrated le h = ground arith
blocked_monotone summary high k unrated le h = ground arith
blocked_monotone summary medium k unrated le h = ground arith
blocked_monotone summary low k unrated le h = ground arith

-- What a level blocks, every lower level blocks too.
pub violation_monotone :
    (summary : SeveritySummary) (l k : Level) (unrated : Bool)
    → threshold k ≤ threshold l
    → is_some (violation (some summary) (record { level = some l; unrated = unrated })) ≡ true
    → is_some (violation (some summary) (record { level = some k; unrated = unrated })) ≡ true
violation_monotone summary l k unrated le h =
    rw (violation-blocked summary (record { level = some k; unrated = unrated })) (
      blocked_monotone summary l k unrated le
        (rw (violation-blocked summary (record { level = some l; unrated = unrated })) at h))
