-- ===== src/Compare/Findings/Diff.antt =====
-- `sortFindings`, `diffFindings` and `commonPlatforms` of web/src/lib/compare-shared.ts.
pub mod Sides
use Prim.Native.Nat.{Ordering, compare}
use chicoree.Prelude.{
  ℕ, zero, suc, ◌+◌, Bool, true, false, not, ◌&&◌, ◌||◌, Option, none, some, get_or, List, [], ◌∷◌,
  ◌++◌, filter, if◌then◌else◌, Str, str, str_eq, includes,
}
use chicoree.Prelude.Sorting.{sort, or_else}
use chicoree.Compare.Configs.{once_each}
use chicoree.Compare.Findings.{Finding, severities, finding_key}

rank_in : ℕ → List Str → Str → Option ℕ
rank_in i [] severity = none
rank_in i (s ∷ ss) severity =
    let rest = rank_in (i + 1) ss severity in if str_eq s severity then some i else rest

-- `SEVERITY_RANK[severity] ?? 99`
severity_rank : Str → ℕ
unfolding rank_in
severity_rank severity = get_or (rank_in 0 severities severity) 99

-- A counter for each severity, in the order of their first finding.
abbrev pub Counts : Type 0
Counts = List (Str × ℕ)

unfoldable pub count_of : Counts → Str → ℕ
count_of [] severity = 0
count_of (c ∷ cs) severity =
    let rest = count_of cs severity in if str_eq c.0 severity then c.1 else rest

-- `out[severity] = (out[severity] ?? 0) + 1`
count_up : Counts → Str → Counts
count_up [] severity = (severity, 1) ∷ []
count_up (c ∷ cs) severity =
    let rest = count_up cs severity in if str_eq c.0 severity then (c.0, c.1 + 1) ∷ cs else c ∷ rest

count_from : Counts → List Finding → Counts
unfolding count_up
count_from out [] = out
count_from out (f ∷ fs) = count_from (count_up out f.severity) fs

unfoldable pub count_severities : List Finding → Counts
unfolding count_from
count_severities list = count_from [] list

-- `new Map(list.map((f) => [findingKey(f), f]))`: the last finding of a key, where the first was.
unfoldable pub put_finding : List Finding → Finding → List Finding
unfolding finding_key
put_finding [] f = f ∷ []
put_finding (g ∷ gs) f =
    let rest = put_finding gs f in
    if str_eq (finding_key g) (finding_key f) then f ∷ gs else g ∷ rest

findings_from : List Finding → List Finding → List Finding
unfolding put_finding
findings_from m [] = m
findings_from m (f ∷ fs) = findings_from (put_finding m f) fs

unfoldable pub by_key : List Finding → List Finding
unfolding findings_from
by_key list = findings_from [] list

-- `m.has(key)`
unfoldable pub has_key : List Finding → Str → Bool
unfolding finding_key
has_key [] key = false
has_key (f ∷ fs) key = str_eq (finding_key f) key || has_key fs key

pub record FindingsDiff : Type 0 where
  pub added : List Finding
  pub fixed : List Finding
  pub unchanged : List Finding
  pub added_by_severity : Counts
  pub fixed_by_severity : Counts

-- The order of names is the host's.
module _ (locale_compare : Str → Str → Ordering) where
  by_severity : Finding → Finding → Ordering
  unfolding severity_rank
  by_severity a b =
      or_else (compare (severity_rank a.severity) (severity_rank b.severity))
        (or_else (locale_compare a.package_name b.package_name) (locale_compare a.id b.id))

  unfoldable pub sort_findings : List Finding → List Finding
  unfolding by_severity
  sort_findings list = sort by_severity list

  unfoldable pub diff_findings : List Finding → List Finding → FindingsDiff
  unfolding by_key sort_findings count_severities
  diff_findings from to =
      let a = by_key from in
      let b = by_key to in
      let new = sort_findings (filter (λ f. not (has_key a (finding_key f))) b) in
      let old = sort_findings (filter (λ f. not (has_key b (finding_key f))) a) in
      record {
        added = new;
        fixed = old;
        unchanged = sort_findings (filter (λ f. has_key a (finding_key f)) b);
        added_by_severity = count_severities new;
        fixed_by_severity = count_severities old;
      }

pub record CommonPlatforms : Type 0 where
  pub common : List Str
  pub disjoint : Bool

common_of : List Str → List Str → List Str → CommonPlatforms
unfolding once_each
common_of from to [] = record { common = once_each [] (to ++ from); disjoint = true }
common_of from to (p ∷ ps) = record { common = p ∷ ps; disjoint = false }

unfoldable pub common_platforms : List Str → List Str → CommonPlatforms
unfolding common_of
common_platforms from to = common_of from to (filter (includes from) to)
