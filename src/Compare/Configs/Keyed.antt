-- ===== src/Compare/Configs/Keyed.antt =====
-- A comparison of two maps says that nothing changed exactly where they agree.
use chicoree.Prelude.{
  ◌≡◌, ◌↔◌, ◌⊎◌, inl, inr, refl, sym, ap, ◌∙◌, subst, true, false, Bool-cases, if-cases, Option,
  none, some, List, [], ◌∷◌, ◌++◌, map, any, All, if◌then◌else◌, Str, str_eq, str_eq→eq,
  str_eq_refl, includes, arith,
}
use chicoree.Prelude.Sorting.{sort, sort-All, All-sort}
use chicoree.Compare.Configs.{
  ConfigDiffRow, Entries, get_entry, same_value, keys, once_each, code_order, keyed_row, keyed_rows,
}

same_value→eq : (s t : Option Str) → same_value s t ≡ true → s ≡ t
unfolding same_value
same_value→eq none none h = refl
same_value→eq none (some t) h = cc (h)
same_value→eq (some s) none h = cc (h)
same_value→eq (some s) (some t) h = ap some (str_eq→eq s t h)

pub same_value_refl : (s : Option Str) → same_value s s ≡ true
unfolding same_value
same_value_refl none = refl
same_value_refl (some s) = str_eq_refl s

once_each-again :
    (seen : List Str) (k : Str) (ks : List Str)
    → includes seen k ≡ true
    → once_each seen (k ∷ ks) ≡ once_each seen ks
unfolding once_each
once_each-again seen k ks e = rw (e) refl

once_each-new :
    (seen : List Str) (k : Str) (ks : List Str)
    → includes seen k ≡ false
    → once_each seen (k ∷ ks) ≡ k ∷ once_each (k ∷ seen) ks
unfolding once_each
once_each-new seen k ks e = rw (e) refl

append-All : (P : Str → Type 0) (xs ys : List Str) → All P (xs ++ ys) → All P xs × All P ys
append-All P [] ys h = (tt, h)
append-All P (x ∷ xs) ys h = let both = append-All P xs ys h.1 in ((h.0, both.0), both.1)

module _ (P : Str → Type 0) where
  All-includes : (seen : List Str) (k : Str) → All P seen → includes seen k ≡ true → P k
  unfolding includes
  All-includes [] k h i = cc (i)
  All-includes (s ∷ seen) k h i = elim (Bool-cases (str_eq s k)) [
    | inl e ↦ subst P (str_eq→eq s k e) h.0
    | inr e ↦ All-includes seen k h.1 (ground (arith, e, i))
  ]

  once_each-All : (seen ks : List Str) → All P seen → All P (once_each seen ks) → All P ks
  unfolding once_each
  once_each-All seen [] s h = tt
  once_each-All seen (k ∷ ks) s h = elim (Bool-cases (includes seen k)) [
    | inl e ↦ (
      All-includes seen k s e,
      once_each-All seen ks s (subst (All P) (once_each-again seen k ks e) h),
    )
    | inr e ↦
        let both = subst (All P) (once_each-new seen k ks e) h in
        (both.0, once_each-All (k ∷ seen) ks (both.0, s) both.1)
  ]

  All-once_each : (seen ks : List Str) → All P ks → All P (once_each seen ks)
  unfolding once_each
  All-once_each seen [] h = tt
  All-once_each seen (k ∷ ks) h =
      if-cases (All P) (includes seen k)
        (λ e. All-once_each (if includes seen k then seen else k ∷ seen) ks h.1)
        (λ e. (h.0, All-once_each (if includes seen k then seen else k ∷ seen) ks h.1))

  -- What holds of all keys of a map holds of one that has a value.
  keys-get_entry : (m : Entries) (k : Str) → All P (keys m) → (get_entry m k ≡ none) ⊎ P k
  unfolding keys get_entry
  keys-get_entry [] k h = inl refl
  keys-get_entry (e ∷ es) k h =
      if-cases (λ o. (o ≡ none) ⊎ P k) (str_eq e.0 k) (λ q. inr (subst P (str_eq→eq e.0 k q) h.0))
        (λ q. keys-get_entry es k h.1)

  every_key : (ks : List Str) → ((k : Str) → P k) → All P ks
  every_key [] h = tt
  every_key (k ∷ ks) h = (h k, every_key ks h)

module _ (section : Str) (a b : Entries) where
  -- The maps have the same value, or none, at a key.
  abbrev AgreeAt : Str → Type 0
  AgreeAt k = same_value (get_entry a k) (get_entry b k) ≡ true

  rows-AgreeAt :
      (ks : List Str)
      → any (λ (r : ConfigDiffRow). r.changed) (map (keyed_row section a b) ks) ≡ false
      → All AgreeAt ks
  unfolding keyed_row
  rows-AgreeAt [] h = tt
  rows-AgreeAt (k ∷ ks) h = ground (arith, h, rows-AgreeAt ks)

  AgreeAt-rows :
      (ks : List Str)
      → All AgreeAt ks
      → any (λ (r : ConfigDiffRow). r.changed) (map (keyed_row section a b) ks) ≡ false
  unfolding keyed_row
  AgreeAt-rows [] h = refl
  AgreeAt-rows (k ∷ ks) h = ground (arith, h.0, AgreeAt-rows ks h.1)

  AgreeAt-keys : (k : Str) → All AgreeAt (keys a ++ keys b) → get_entry a k ≡ get_entry b k
  AgreeAt-keys k h = elim (keys-get_entry AgreeAt a k (append-All AgreeAt (keys a) (keys b) h).0) [
    | inl e ↦ elim (keys-get_entry AgreeAt b k (append-All AgreeAt (keys a) (keys b) h).1) [
      | inl f ↦ e ∙ sym f
      | inr f ↦ same_value→eq (get_entry a k) (get_entry b k) f
    ]
    | inr e ↦ same_value→eq (get_entry a k) (get_entry b k) e
  ]

  -- A comparison of two maps marks no row as changed exactly where the maps have the same value, or
  -- none, at every key.
  pub keyed_rows-unchanged :
      (any (λ (r : ConfigDiffRow). r.changed) (keyed_rows section a b) ≡ false)
      ↔ ((k : Str) → get_entry a k ≡ get_entry b k)
  unfolding keyed_rows
  keyed_rows-unchanged =
      let ks = keys a ++ keys b in
      (
        λ h k. AgreeAt-keys k (
            once_each-All AgreeAt [] ks tt (
              sort-All code_order AgreeAt (once_each [] ks)
                (rows-AgreeAt (sort code_order (once_each [] ks)) h))),
        λ h. AgreeAt-rows (sort code_order (once_each [] ks)) (
            All-sort code_order AgreeAt (once_each [] ks) (
              All-once_each AgreeAt [] ks (
                every_key AgreeAt ks (λ k.
                  subst (λ v. same_value (get_entry a k) v ≡ true) (h k)
                    (same_value_refl (get_entry a k)))))),
      )
