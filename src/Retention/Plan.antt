-- ===== src/Retention/Plan.antt =====
-- Which tags a plan removes and which it keeps.
use Prim.Native.Nat.{Ordering}
use mathlib.Core.HLevel.{Π_prop}
use mathlib.Core.List.{
  Mem-prop, map-append, mem-append_left, mem-append_right, Perm, perm_middle, append_assoc, Mem,
  mem-cons_self, mem-cons_of_mem,
}
use mathlib.Core.List.Perm
use chicoree.Prelude.{
  subst, ℕ, suc, ◌≤◌, ◌≡◌, refl, sym, ap, ◌∙◌, Bool, true, false, some, List, [], ◌∷◌, ◌++◌, map,
  includes, take, drop, take-append-drop, length-take, Str, str_eq_refl, All, All-elim, All-map,
  All-append, arith, length, length-append, min,
}
use chicoree.Prelude.Sorting.{sort-perm, All-sort, length-sort}
use chicoree.TagRules.{TagRule}
use chicoree.Retention.{
  RetentionSettings, PlanTag, PlanManifest, PlannedTag, Reason, Verdict, keep, remove,
  plan_retention, newest_first, recent_names, recent_of, newer,
}
use chicoree.Retention.Tags.{
  IsRemovable, IsRemove, planned, if_removed, if_kept, removed, kept, plan, sorted, verdict,
  tags-removed, kept_tags-kept, verdict→IsRemovable, IsRemovable→verdict,
}

abbrev pub Key : Type 0
Key = Str × Str

abbrev pub tag_key : PlanTag → Key
tag_key t = (t.name, t.digest)

abbrev pub planned_key : PlannedTag → Key
planned_key e = (e.name, e.digest)

All-Mem {ℓ} : {A : Type ℓ} (xs : List A) → All (λ x. Mem x xs) xs
All-Mem [] = tt
All-Mem (x ∷ xs) = (
  mem-cons_self,
  All-map (λ y. Mem y xs) (λ y. Mem y (x ∷ xs)) xs (λ y m. mem-cons_of_mem x m) (All-Mem xs),
)

share-perm :
    (v : PlanTag → Verdict) (x : Verdict) (t : PlanTag) (ts : List PlanTag)
    → Perm (map planned_key (removed v ts) ++ map planned_key (kept v ts)) (map tag_key ts)
    → Perm
        (map planned_key (if_removed t x ++ removed v ts)
          ++ map planned_key (if_kept t x ++ kept v ts))
        (tag_key t ∷ map tag_key ts)
share-perm v (remove r) t ts h = Perm.cons (tag_key t) h
share-perm v (keep r) t ts h =
    Perm.trans (perm_middle (map planned_key (removed v ts)) (map planned_key (kept v ts)))
      (Perm.cons (tag_key t) h)

-- The two lists of the loop share out the tags.
shared-perm :
    (v : PlanTag → Verdict) (ts : List PlanTag)
    → Perm (map planned_key (removed v ts) ++ map planned_key (kept v ts)) (map tag_key ts)
shared-perm v [] = Perm.refl []
shared-perm v (t ∷ ts) = share-perm v (v t) t ts (shared-perm v ts)

includes-cons : (s u : Str) (ts : List Str) → includes ts s ≡ true → includes (u ∷ ts) s ≡ true
unfolding includes
includes-cons s u ts h = ground arith

includes_head : (s : Str) (ts : List Str) → includes (s ∷ ts) s ≡ true
unfolding includes
includes_head s ts = rw (str_eq_refl s)

All-includes : (ts : List PlanTag) → All (λ t. includes (map (λ u. u.name) ts) t.name ≡ true) ts
All-includes [] = tt
All-includes (t ∷ ts) = (
  includes_head t.name (map (λ u. u.name) ts),
  All-map (λ u. includes (map (λ w. w.name) ts) u.name ≡ true)
      (λ u. includes (map (λ w. w.name) (t ∷ ts)) u.name ≡ true) ts
      (λ u. includes-cons u.name t.name _) (All-includes ts),
)

length-if_kept :
    (v : PlanTag → Verdict) (t : PlanTag) (ts : List PlanTag) (x : Verdict)
    → ¬ IsRemove x
    → length (if_kept t x ++ kept v ts) ≡ suc (length (kept v ts))
length-if_kept v t ts (keep r) stays = refl
length-if_kept v t ts (remove r) stays = absurd (stays tt)

-- The tags that the verdict does not remove are kept.
length-kept :
    (v : PlanTag → Verdict) (ts : List PlanTag)
    → All (λ t. ¬ IsRemove (v t)) ts
    → length (kept v ts) ≡ length ts
length-kept v [] h = refl
length-kept v (t ∷ ts) h = length-if_kept v t ts (v t) h.0 ∙ ap suc (length-kept v ts h.1)

kept-append :
    (v : PlanTag → Verdict) (xs ys : List PlanTag) → kept v (xs ++ ys) ≡ kept v xs ++ kept v ys
kept-append v [] ys = refl
kept-append v (x ∷ xs) ys =
    ap (λ l. if_kept x (v x) ++ l) (kept-append v xs ys) ∙ sym (append_assoc (if_kept x (v x)) _ _)

if_removed-All :
    (P : PlannedTag → Type 0) (t : PlanTag) (x : Verdict)
    → ((r : Reason) → IsRemove x → P (planned t r))
    → All P (if_removed t x)
if_removed-All P t (keep r) h = tt
if_removed-All P t (remove r) h = (h r tt, tt)

removed-All :
    (P : PlannedTag → Type 0) (v : PlanTag → Verdict) (ts : List PlanTag)
    → All (λ t. (r : Reason) → IsRemove (v t) → P (planned t r)) ts
    → All P (removed v ts)
removed-All P v [] h = tt
removed-All P v (t ∷ ts) h =
    All-append P (if_removed t (v t)) (removed v ts) (if_removed-All P t (v t) h.0)
      (removed-All P v ts h.1)

if_removed-Mem :
    (t : PlanTag) (x : Verdict) → IsRemove x → Mem (tag_key t) (map planned_key (if_removed t x))
if_removed-Mem t (keep r) h = absurd h
if_removed-Mem t (remove r) h = mem-cons_self

removed-Mem :
    (v : PlanTag → Verdict) (ts : List PlanTag)
    → All (λ t. IsRemove (v t) → Mem (tag_key t) (map planned_key (removed v ts))) ts
removed-Mem v [] = tt
removed-Mem v (t ∷ ts) = (
  λ h. rw map-append (mem-append_left _ (if_removed-Mem t (v t) h)),
  All-map (λ u. IsRemove (v u) → Mem (tag_key u) (map planned_key (removed v ts)))
      (λ u. IsRemove (v u) → Mem (tag_key u) (map planned_key (removed v (t ∷ ts)))) ts
      (λ u m h. rw map-append (mem-append_right (map planned_key (if_removed t (v t))) (m h)))
      (removed-Mem v ts),
)

not_recent_of : {b : Bool} → b ≡ true → b ≡ false → ⊥
not_recent_of p q = cc

kept-take :
    (v : PlanTag → Verdict) (n : ℕ) (ts : List PlanTag) {count : ℕ}
    → length ts ≡ count
    → All (λ t. ¬ IsRemove (v t)) (take n ts)
    → min n count ≤ length (kept v ts)
kept-take v n ts e h =
    let parts : kept v ts ≡ kept v (take n ts) ++ kept v (drop n ts) =
      ap (kept v) (sym (take-append-drop n ts)) ∙ kept-append v (take n ts) (drop n ts) in
    rw parts (
      omega (
        arith,
        length-append (kept v (take n ts)) (kept v (drop n ts)),
        length-kept v (take n ts) h,
        length-take n ts,
        e,
      ))

module _ (locale_compare : Str → Str → Ordering) (tags : List PlanTag)
    (untagged : List PlanManifest) (policy : RetentionSettings) (rules : List TagRule)
    (now : ℕ) where
  -- The removed and the kept tags of a plan are together the tags of the repository with their
  -- digests, each as often as it was given.
  pub plan-tags-perm :
      Perm
        (map planned_key (plan locale_compare tags untagged policy rules now).tags
          ++ map planned_key (plan locale_compare tags untagged policy rules now).kept_tags)
        (map tag_key tags)
  plan-tags-perm =
      rw
        (
          tags-removed locale_compare tags untagged policy rules now,
          kept_tags-kept locale_compare tags untagged policy rules now,
        )
        (Perm.trans (shared-perm _ (sorted locale_compare tags untagged policy rules now))
          (Perm.map tag_key (sort-perm (newer locale_compare) tags)))

  -- A retention plan removes exactly the removable tags: each removed tag is a tag of the
  -- repository that no rule protects, no keep pattern matches, is not among the keepLast newest,
  -- under a policy with a tag rule, and older than the policy's age where one is set; and every
  -- such tag is removed.
  pub plan-removes_exactly :
      All
        (λ e.
          (t : PlanTag) × Mem t tags
          × (planned_key e ≡ tag_key t)
          × IsRemovable policy rules
              (recent_names locale_compare policy (newest_first locale_compare tags))
              now
              t)
        (plan_retention locale_compare tags untagged policy rules now).tags
      × ((t : PlanTag)
          → Mem t tags
          → IsRemovable policy rules
              (recent_names locale_compare policy (newest_first locale_compare tags))
              now
              t
          → Mem
              (tag_key t)
              (map planned_key (plan_retention locale_compare tags untagged policy rules now).tags))
  plan-removes_exactly = rw (tags-removed locale_compare tags untagged policy rules now) (
    removed-All _ _ (newest_first locale_compare tags) (
        All-map _ _ (newest_first locale_compare tags)
          (λ t listed r gone. (t, listed, refl, verdict→IsRemovable policy rules _ now t gone))
          (All-sort (newer locale_compare) (λ t. Mem t tags) tags (All-Mem tags))),
    λ t listed removable.
        All-elim
          (λ u.
            IsRemove (verdict locale_compare tags untagged policy rules now u)
            → Mem (tag_key u) (
                map planned_key (
                  removed (verdict locale_compare tags untagged policy rules now)
                    (newest_first locale_compare tags))))
          (Π_prop (λ _. Mem-prop))
          (removed-Mem (verdict locale_compare tags untagged policy rules now)
            (newest_first locale_compare tags))
          (Perm.subset (Perm.symm (sort-perm (newer locale_compare) tags)) t listed)
          (IsRemovable→verdict policy rules _ now t removable),
  )

  -- Under keepLast of n a plan keeps at least n tags, or all of them where there are fewer.
  pub plan-keeps_last :
      (n : ℕ)
      → policy.keep_last ≡ some n
      → min n (length tags)
        ≤ length (plan_retention locale_compare tags untagged policy rules now).kept_tags
  plan-keeps_last n e = rw (kept_tags-kept locale_compare tags untagged policy rules now) (
      kept-take (verdict locale_compare tags untagged policy rules now) n
        (newest_first locale_compare tags) (length-sort (newer locale_compare) tags)
        (All-map _ _ (take n (newest_first locale_compare tags))
          (λ t named gone.
            not_recent_of
              (subst (λ o. includes (recent_of o (newest_first locale_compare tags)) t.name ≡ true)
                (sym e) named)
              (verdict→IsRemovable policy rules _ now t gone).not_recent)
          (All-includes _)))
