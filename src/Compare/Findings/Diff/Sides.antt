-- ===== src/Compare/Findings/Diff/Sides.antt =====
-- The three lists of a comparison of findings, by the keys of the two scans.
use mathlib.Core.List.{Perm}
use mathlib.Core.List.Perm
use mathlib.Core.List.{perm_middle}
use Prim.Native.Nat.{Ordering}
use chicoree.Prelude.{
  not-true, ◌+◌, ◌≡◌, refl, sym, ap, ◌∙◌, Bool, true, false, not, ◌||◌, Bool-cases, inl, inr,
  if-cases, List, [], ◌∷◌, ◌++◌, filter, filter-passes, length, All, All-map, if◌then◌else◌, Str,
  str_eq, str_eq→eq, str_eq_sym, arith,
}
use chicoree.Prelude.Sorting.{sort-perm, All-sort}
use chicoree.Compare.Findings.{Finding, finding_key}
use chicoree.Compare.Findings.Diff.{
  put_finding, findings_from, by_key, has_key, FindingsDiff, by_severity, sort_findings,
  diff_findings, Counts, count_of, count_up, count_from, count_severities,
}

has_key-put_finding :
    (m : List Finding) (f : Finding) (key : Str)
    → has_key (put_finding m f) key ≡ (has_key m key || str_eq (finding_key f) key)
unfolding has_key put_finding
has_key-put_finding [] f key = ground arith
has_key-put_finding (g ∷ gs) f key =
    let rest = has_key-put_finding gs f key in
    if-cases (λ m. has_key m key ≡ (has_key (g ∷ gs) key || str_eq (finding_key f) key))
      (str_eq (finding_key g) (finding_key f))
      (λ e.
        let same = ap (λ k. str_eq k key) (str_eq→eq (finding_key g) (finding_key f) e) in
        ground (arith, same))
      (λ e. ground (arith, rest))

has_key-findings_from :
    (m list : List Finding) (key : Str)
    → has_key (findings_from m list) key ≡ (has_key m key || has_key list key)
unfolding findings_from has_key
has_key-findings_from m [] key = ground arith
has_key-findings_from m (f ∷ fs) key =
    let rest = has_key-findings_from (put_finding m f) fs key in
    let put = has_key-put_finding m f key in ground (arith, rest, put)

-- The findings by key have the keys of the list.
has_key-by_key : (list : List Finding) (key : Str) → has_key (by_key list) key ≡ has_key list key
unfolding by_key has_key
has_key-by_key list key = has_key-findings_from [] list key

-- A list is what passes a test and what does not.
filter-split-perm :
    (p : Finding → Bool) (xs : List Finding) → Perm (filter (λ x. not (p x)) xs ++ filter p xs) xs
filter-split-perm p [] = Perm.refl []
filter-split-perm p (x ∷ xs) =
    let rest = filter-split-perm p xs in
    let no = filter (λ y. not (p y)) xs in
    let yes = filter p xs in
    elim (Bool-cases (p x)) [
      | inl e ↦ rw (e) (Perm.trans (perm_middle no yes) (Perm.cons x rest))
      | inr e ↦ rw (e) (Perm.cons x rest)
    ]

count_of-count_up :
    (out : Counts) (severity s : Str)
    → count_of (count_up out severity) s ≡ count_of out s + (if str_eq severity s then 1 else 0)
unfolding count_of count_up
count_of-count_up [] severity s = ground arith
count_of-count_up (c ∷ cs) severity s =
    let rest = count_of-count_up cs severity s in
    if-cases (λ out. count_of out s ≡ count_of (c ∷ cs) s + (if str_eq severity s then 1 else 0))
      (str_eq c.0 severity)
      (λ e. let same = ap (λ k. str_eq k s) (str_eq→eq c.0 severity e) in ground (arith, same))
      (λ e. elim (Bool-cases (str_eq c.0 s)) [
        | inl h ↦
            let other =
              ap (λ k. str_eq severity k) (sym (str_eq→eq c.0 s h)) ∙ str_eq_sym severity c.0 ∙ e in
            ground (arith, h, other)
        | inr h ↦ ground (arith, h, rest)
      ])

count_of-count_from :
    (out : Counts) (list : List Finding) (s : Str)
    → count_of (count_from out list) s
      ≡ count_of out s + length (filter (λ (f : Finding). str_eq f.severity s) list)
unfolding count_from
count_of-count_from out [] s = omega arith
count_of-count_from out (f ∷ fs) s =
    let rest = count_of-count_from (count_up out f.severity) fs s in
    let up = count_of-count_up out f.severity s in ground (arith, rest, up)

count_of-count_severities :
    (list : List Finding) (s : Str)
    → count_of (count_severities list) s
      ≡ length (filter (λ (f : Finding). str_eq f.severity s) list)
unfolding count_severities count_of
count_of-count_severities list s = let all = count_of-count_from [] list s in omega (arith, all)

same_as_itself : (list : List Finding) → All (λ (f : Finding). f ≡ f) list
same_as_itself [] = tt
same_as_itself (f ∷ fs) = (refl, same_as_itself fs)

abbrev pub IsIn : List Finding → Bool → Finding → Type 0
IsIn list b f = has_key list (finding_key f) ≡ b

pub record Compares (from to : List Finding) (d : FindingsDiff) : Type 0 where
  pub of_to : Perm (d.added ++ d.unchanged) (by_key to)
  pub of_from :
      Perm
        (d.fixed ++ filter (λ f. has_key (by_key to) (finding_key f)) (by_key from))
        (by_key from)
  pub only_new : All (IsIn from false) d.added
  pub still : All (IsIn from true) d.unchanged
  pub only_old : All (IsIn to false) d.fixed
  pub figures :
      (s : Str)
      → count_of d.added_by_severity s
        ≡ length (filter (λ (f : Finding). str_eq f.severity s) d.added)

module _ (locale_compare : Str → Str → Ordering) where
  All-sort_findings :
      (P : Finding → Type 0) (list : List Finding)
      → All P list
      → All P (sort_findings locale_compare list)
  unfolding sort_findings
  All-sort_findings P list h = All-sort (by_severity locale_compare) P list h

  sort_findings-perm : (list : List Finding) → Perm (sort_findings locale_compare list) list
  unfolding sort_findings
  sort_findings-perm list = sort-perm (by_severity locale_compare) list

  -- A sorted part of the findings of a scan.
  sorted-IsIn :
      (b : Bool) (p : Finding → Bool) (other list : List Finding)
      → ((f : Finding) → p f ≡ true → has_key (by_key other) (finding_key f) ≡ b)
      → All (IsIn other b) (sort_findings locale_compare (filter p list))
  sorted-IsIn b p other list k = All-sort_findings (IsIn other b) (filter p list) (
      All-map (λ (f : Finding). (f ≡ f) × (p f ≡ true)) (IsIn other b) (filter p list)
        (λ f h. sym (has_key-by_key other (finding_key f)) ∙ k f h.1)
        (filter-passes (λ (f : Finding). f ≡ f) p list (same_as_itself list)))

  sorted-split-perm :
      (p : Finding → Bool) (list : List Finding)
      → Perm
          (sort_findings locale_compare (filter (λ f. not (p f)) list)
            ++ sort_findings locale_compare (filter p list))
          list
  sorted-split-perm p list =
      Perm.trans
        (Perm.append (sort_findings-perm (filter (λ f. not (p f)) list))
          (sort_findings-perm (filter p list)))
        (filter-split-perm p list)

  -- The added and the unchanged findings are together the findings of the new scan by key, none of
  -- the added and each of the unchanged has a key of the old scan; the fixed ones are those of the
  -- old scan by key that have no key of the new one; the figures count the added ones by severity.
  pub diff_findings-Compares :
      (from to : List Finding) → Compares from to (diff_findings locale_compare from to)
  unfolding diff_findings
  diff_findings-Compares from to = record {
    of_to = sorted-split-perm (λ f. has_key (by_key from) (finding_key f)) (by_key to);
    of_from =
        Perm.trans
          (Perm.append
            (sort_findings-perm
              (filter (λ f. not (has_key (by_key to) (finding_key f))) (by_key from)))
            (Perm.refl (filter (λ f. has_key (by_key to) (finding_key f)) (by_key from))))
          (filter-split-perm (λ f. has_key (by_key to) (finding_key f)) (by_key from));
    only_new =
        sorted-IsIn false (λ f. not (has_key (by_key from) (finding_key f))) from (by_key to)
          (λ f h. not-true (has_key (by_key from) (finding_key f)) h);
    still =
        sorted-IsIn true (λ f. has_key (by_key from) (finding_key f)) from (by_key to) (λ f h. h);
    only_old =
        sorted-IsIn false (λ f. not (has_key (by_key to) (finding_key f))) to (by_key from)
          (λ f h. not-true (has_key (by_key to) (finding_key f)) h);
    figures = λ s.
        count_of-count_severities
          (sort_findings locale_compare
            (filter (λ f. not (has_key (by_key from) (finding_key f))) (by_key to)))
          s;
  }
