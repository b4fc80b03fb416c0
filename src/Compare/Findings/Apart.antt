-- ===== src/Compare/Findings/Apart.antt =====
-- No two findings of a normalised list have the same key, so that no finding is lost in a map.
use chicoree.Prelude.{
  ◌≡◌, ◌≢◌, sym, ap, false, Bool-cases, inl, inr, Option, none, some, List, [], ◌∷◌, All, Str,
  str_eq, str_eq_refl, includes, arith,
}
use chicoree.Compare.Findings.{
  ClairReport, RawFinding, raw_findings, clair_findings, row_findings, Finding, finding_key,
  push_each, ScanRow, normalize_findings,
}

-- The findings of other keys than those seen.
abbrev AllNew : List Str → List Finding → Type 0
AllNew seen = All (λ (f : Finding). includes seen (finding_key f) ≡ false)

abbrev pub Apart : List Finding → Type 0
Apart [] = Unit
Apart (f ∷ fs) = All (λ (g : Finding). finding_key g ≢ finding_key f) fs × Apart fs

includes_cons-other :
    (k x : Str) (seen : List Str)
    → includes (k ∷ seen) x ≡ false
    → (includes seen x ≡ false) × (x ≢ k)
unfolding includes
includes_cons-other k x seen h = (
  ground (arith, h),
  λ e.
      let same = ap (λ y. str_eq y x) (sym e) in
      let own = str_eq_refl x in ground (arith, h, same, own),
)

module _ (seen : List Str) (f : Finding) where
  others-AllNew : (fs : List Finding) → AllNew (finding_key f ∷ seen) fs → AllNew seen fs
  others-AllNew [] h = tt
  others-AllNew (g ∷ gs) h =
      ((includes_cons-other (finding_key f) (finding_key g) seen h.0).0, others-AllNew gs h.1)

  others-apart :
      (fs : List Finding)
      → AllNew (finding_key f ∷ seen) fs
      → All (λ (g : Finding). finding_key g ≢ finding_key f) fs
  others-apart [] h = tt
  others-apart (g ∷ gs) h =
      ((includes_cons-other (finding_key f) (finding_key g) seen h.0).1, others-apart gs h.1)

pub push_each-Apart :
    (seen : List Str) (list : List Finding)
    → AllNew seen (push_each seen list) × Apart (push_each seen list)
unfolding push_each
push_each-Apart seen [] = (tt, tt)
push_each-Apart seen (f ∷ fs) = elim (Bool-cases (includes seen (finding_key f))) [
  | inl e ↦ let rest = push_each-Apart seen fs in rw (e) rest
  | inr e ↦
      let rest = push_each-Apart (finding_key f ∷ seen) fs in
      let kept = push_each (finding_key f ∷ seen) fs in
      rw (e) ((e, others-AllNew seen f kept rest.0), (others-apart seen f kept rest.0, rest.1))
]

row_findings-Apart :
    (raws : Option (List RawFinding)) (report : Option ClairReport)
    → Apart (row_findings raws report)
unfolding row_findings
row_findings-Apart (some raws) report = (push_each-Apart [] (raw_findings raws)).1
row_findings-Apart none none = tt
row_findings-Apart none (some report) =
    (push_each-Apart [] (clair_findings report report.package_vulnerabilities)).1

-- No two findings of a normalised scan have the same key.
pub normalize_findings-Apart : (row : Option ScanRow) → Apart (normalize_findings row)
unfolding normalize_findings
normalize_findings-Apart none = tt
normalize_findings-Apart (some row) = row_findings-Apart row.findings row.report
