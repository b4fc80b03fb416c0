-- ===== src/Prelude/Sorting.antt =====
-- `Array.prototype.sort` with a comparator: a stable sort.
use Prim.Native.Nat.{Ordering}
use mathlib.Core.List.{Perm}
use mathlib.Core.List.Perm
use chicoree.Prelude.{
  suc, ◌≡◌, refl, ap, ◌∙◌, length, Bool, true, false, List, [], ◌∷◌, if◌then◌else◌, All, arith,
}

-- `x || y` on the results of two comparisons.
abbrev pub or_else : Ordering → Ordering → Ordering
or_else Ordering.eq y = y
or_else Ordering.lt y = Ordering.lt
or_else Ordering.gt y = Ordering.gt

abbrev pub is_gt : Ordering → Bool
is_gt Ordering.gt = true
is_gt Ordering.lt = false
is_gt Ordering.eq = false

module _ {ℓ} {A : Type ℓ} (cmp : A → A → Ordering) where
  unfoldable pub insert : A → List A → List A
  insert x [] = x ∷ []
  insert x (y ∷ ys) = let rest = insert x ys in if is_gt (cmp x y) then y ∷ rest else x ∷ y ∷ ys

  unfoldable pub sort : List A → List A
  unfolding insert
  sort [] = []
  sort (x ∷ xs) = insert x (sort xs)

insert_step-perm {ℓ} :
    {A : Type ℓ} (x y : A) (rest ys : List A) (b : Bool)
    → Perm rest (x ∷ ys)
    → Perm (if b then y ∷ rest else x ∷ y ∷ ys) (x ∷ y ∷ ys)
insert_step-perm x y rest ys true h = Perm.trans (Perm.cons y h) (Perm.swap x y ys)
insert_step-perm x y rest ys false h = Perm.refl (x ∷ y ∷ ys)

module _ {ℓ} {A : Type ℓ} (cmp : A → A → Ordering) where
  insert-perm : (x : A) (ys : List A) → Perm (insert cmp x ys) (x ∷ ys)
  unfolding insert
  insert-perm x [] = Perm.refl (x ∷ [])
  insert-perm x (y ∷ ys) =
      insert_step-perm x y (insert cmp x ys) ys (is_gt (cmp x y)) (insert-perm x ys)

  -- Sorting only reorders.
  pub sort-perm : (xs : List A) → Perm (sort cmp xs) xs
  unfolding sort
  sort-perm [] = Perm.refl []
  sort-perm (x ∷ xs) = Perm.trans (insert-perm x (sort cmp xs)) (Perm.cons x (sort-perm xs))

  pub All-insert {κ} :
      (P : A → Type κ) (x : A) (ys : List A) → P x → All P ys → All P (insert cmp x ys)
  unfolding insert
  All-insert P x [] hx h = (hx, tt)
  All-insert P x (y ∷ ys) hx h = ground (arith, All-insert P x ys hx h.1)

  pub All-sort {κ} : (P : A → Type κ) (xs : List A) → All P xs → All P (sort cmp xs)
  unfolding sort
  All-sort P [] h = tt
  All-sort P (x ∷ xs) h = All-insert P x (sort cmp xs) h.0 (All-sort P xs h.1)

  insert-All {κ} : (P : A → Type κ) (x : A) (ys : List A) → All P (insert cmp x ys) → P x × All P ys
  unfolding insert
  insert-All P x [] h = (h.0, tt)
  insert-All P x (y ∷ ys) h = ground (arith, insert-All P x ys)

  pub sort-All {κ} : (P : A → Type κ) (xs : List A) → All P (sort cmp xs) → All P xs
  unfolding sort
  sort-All P [] h = tt
  sort-All P (x ∷ xs) h =
      let both = insert-All P x (sort cmp xs) h in (both.0, sort-All P xs both.1)

  length-insert : (x : A) (ys : List A) → length (insert cmp x ys) ≡ suc (length ys)
  unfolding insert
  length-insert x [] = refl
  length-insert x (y ∷ ys) = ground (arith, length-insert x ys)

  pub length-sort : (xs : List A) → length (sort cmp xs) ≡ length xs
  unfolding sort
  length-sort [] = refl
  length-sort (x ∷ xs) = length-insert x (sort cmp xs) ∙ ap suc (length-sort xs)
