-- ===== src/Compare/Findings.antt =====
-- The vulnerabilities that two scans differ in, from web/src/lib/compare-shared.ts.
pub mod Diff
pub mod Apart
use Prim.Native.Nat.{Ordering, compare}
use chicoree.Prelude.{
  ℕ, ◌+◌, ◌-◌, Bool, true, false, not, ◌&&◌, ◌||◌, Option, none, some, get_or, List, [], ◌∷◌, ◌++◌,
  map, filter, any, leb, ◌==◌, if◌then◌else◌, Str, str, str_eq, includes, is_empty, is_space, lower,
}
use chicoree.Prelude.Sorting.{sort, or_else}

pub record Finding : Type 0 where
  pub id : Str
  pub name : Str
  pub severity : Str
  pub package_name : Str
  pub package_version : Str
  pub fixed_in : Option Str
  pub link : Option Str

abbrev pub severities : List Str
severities =
    str "Critical" ∷ str "High" ∷ str "Medium" ∷ str "Low" ∷ str "Negligible" ∷ str "Unknown" ∷ []

-- A value of a row of JSON.
pub data Value : Type 0 where
  missing other : Value
  text : Str → Value

-- `a ?? b`
first_given : Value → Value → Value
first_given missing b = b
first_given other b = other
first_given (text s) b = text s

-- `str`
text_of : Value → Option Str
text_of missing = none
text_of other = none
text_of (text s) = if is_empty s then none else some s

-- One letter of `toUpperCase`, in the ASCII range.
upper_code : ℕ → ℕ
upper_code c = if leb b'a' c && leb c b'z' then c - 32 else c

capitalized : Str → Str
unfolding upper_code lower
capitalized [] = []
capitalized (c ∷ s) = upper_code c ∷ lower s

severity_text : Option Str → Str
unfolding capitalized
severity_text none = str "Unknown"
severity_text (some v) = let s = capitalized v in if includes severities s then s else str "Unknown"

normalize_severity : Value → Str
unfolding severity_text text_of
normalize_severity v = severity_text (text_of v)

-- `links.split(/\s+/)[0]`: what is before the first white space.
unfoldable pub first_word : Str → Str
unfolding is_space
first_word [] = []
first_word (c ∷ s) = let rest = first_word s in if is_space c then [] else c ∷ rest

-- `a ?? b` on texts that `str` has read.
or_text : Option Str → Option Str → Option Str
or_text none b = b
or_text (some s) b = some s

-- A finding as the scanning pipeline writes it: its fields, and those of `package` if that is an
-- object.
pub record RawFinding : Type 0 where
  pub field : Str → Value
  pub package_field : Option (Str → Value)

package_text : Option (Str → Value) → Str → Option Str
unfolding text_of
package_text none key = none
package_text (some field) key = text_of (field key)

-- `typeof raw.package === "string" ? raw.package : null`, also if it is empty.
plain_text : Value → Option Str
plain_text missing = none
plain_text other = none
plain_text (text s) = some s

unfoldable pub finding_key : Finding → Str
finding_key f = f.id ++ b'|' ∷ f.package_name

module _ (raw : RawFinding) where
  raw_text : Str → Option Str
  unfolding text_of
  raw_text key = text_of (raw.field key)

  raw_id : Option Str
  unfolding raw_text or_text
  raw_id = or_text (raw_text (str "id")) (
      or_text (raw_text (str "vulnerabilityId"))
        (or_text (raw_text (str "vulnerability_id")) (raw_text (str "name"))))

  raw_link : Option Str
  unfolding raw_text or_text
  raw_link = or_text (raw_text (str "link")) (
      or_text (raw_text (str "url"))
        (elim (raw_text (str "links")) [ none ↦ none | some links ↦ some (first_word links) ]))

  raw_finding : Str → Finding
  unfolding raw_text or_text package_text plain_text raw_link normalize_severity first_given
  raw_finding id = record {
    id = id;
    name = get_or (raw_text (str "name")) id;
    severity = normalize_severity (
        first_given (raw.field (str "severity")) (
          first_given (raw.field (str "normalizedSeverity"))
            (raw.field (str "normalized_severity"))));
    package_name =
        get_or
          (or_text (package_text raw.package_field (str "name")) (
            or_text (raw_text (str "packageName"))
              (or_text (raw_text (str "package_name")) (plain_text (raw.field (str "package"))))))
          (str "unknown");
    package_version =
        get_or
          (or_text (package_text raw.package_field (str "version"))
            (or_text (raw_text (str "packageVersion")) (raw_text (str "package_version"))))
          [];
    fixed_in =
        or_text (raw_text (str "fixedIn"))
          (or_text (raw_text (str "fixedInVersion")) (raw_text (str "fixed_in_version")));
    link = raw_link;
  }

-- The findings that are kept, the keys of which have been seen.
raw_findings : List RawFinding → List Finding
unfolding raw_id raw_finding
raw_findings [] = []
raw_findings (r ∷ rs) =
    let rest = raw_findings rs in
    elim (raw_id r) [ none ↦ rest | some id ↦ raw_finding r id ∷ rest ]

-- `push`: a finding is dropped if its key has been seen.
unfoldable pub push_each : List Str → List Finding → List Finding
unfolding finding_key
push_each seen [] = []
push_each seen (f ∷ fs) =
    let again = includes seen (finding_key f) in
    let rest = push_each (if again then seen else finding_key f ∷ seen) fs in
    if again then rest else f ∷ rest

pub record ClairVulnerability : Type 0 where
  pub name : Option Str
  pub normalized_severity : Value
  pub fixed_in_version : Option Str
  pub links : Option Str

pub record ClairPackage : Type 0 where
  pub name : Option Str
  pub version : Option Str

pub record ClairReport : Type 0 where
  pub vulnerabilities : Str → Option ClairVulnerability
  pub package_vulnerabilities : List (Str × List Str)
  pub packages : Str → Option ClairPackage

-- `text || null`
nonempty : Option Str → Option Str
nonempty none = none
nonempty (some s) = if is_empty s then none else some s

clair_finding : Option ClairPackage → Str → ClairVulnerability → Finding
unfolding nonempty normalize_severity
clair_finding pkg id v = record {
  id = id;
  name = get_or (nonempty v.name) id;
  severity = normalize_severity v.normalized_severity;
  package_name = elim pkg [ none ↦ str "unknown" | some p ↦ get_or p.name (str "unknown") ];
  package_version = elim pkg [ none ↦ [] | some p ↦ get_or p.version [] ];
  fixed_in = nonempty v.fixed_in_version;
  link = elim (nonempty v.links) [ none ↦ none | some links ↦ some (first_word links) ];
}

module _ (report : ClairReport) where
  package_findings : Option ClairPackage → List Str → List Finding
  unfolding clair_finding
  package_findings pkg [] = []
  package_findings pkg (id ∷ ids) =
      let rest = package_findings pkg ids in
      elim (report.vulnerabilities id) [ none ↦ rest | some v ↦ clair_finding pkg id v ∷ rest ]

  clair_findings : List (Str × List Str) → List Finding
  unfolding package_findings
  clair_findings [] = []
  clair_findings (p ∷ ps) = package_findings (report.packages p.0) p.1 ++ clair_findings ps

-- A row of a scan: its findings, if that is an array, or else its report.
pub record ScanRow : Type 0 where
  pub findings : Option (List RawFinding)
  pub report : Option ClairReport

row_findings : Option (List RawFinding) → Option ClairReport → List Finding
unfolding push_each raw_findings clair_findings
row_findings (some raws) report = push_each [] (raw_findings raws)
row_findings none none = []
row_findings none (some report) =
    push_each [] (clair_findings report report.package_vulnerabilities)

unfoldable pub normalize_findings : Option ScanRow → List Finding
unfolding row_findings
normalize_findings none = []
normalize_findings (some row) = row_findings row.findings row.report
