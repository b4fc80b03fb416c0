-- ===== src/Prelude/Arrays.antt =====
-- Arrays as lists: the methods that the program calls, and the predicates that statements use.
use Prim.Native.Nat.{ℕ, zero, suc, ◌+◌, ◌≤◌, min}
use mathlib.Core.Path.{◌≡◌, refl, sym, ap, subst}
use mathlib.Core.Bool.{Bool, true, false, ◌||◌, ◌&&◌}
use mathlib.Core.Logic.{∥∥₁_elim, ◌⊎◌, inl, inr}
use mathlib.Core.Option.{Option, none, some}
use mathlib.Core.List.{List, [], ◌∷◌, ◌++◌, Mem, Memᴰ}
use native.Mathlib.Omega.{arith}
use chicoree.Prelude.Tests.{if◌then◌else◌, if-cases}

abbrev pub All {ℓ κ} : {A : Type ℓ} → (A → Type κ) → List A → Type κ
All P [] = Unit
All P (x ∷ xs) = P x × All P xs

module _ {ℓ} {A : Type ℓ} where
  abbrev pub length : List A → ℕ
  length [] = 0
  length (x ∷ xs) = suc (length xs)

  abbrev pub is_empty : List A → Bool
  is_empty [] = true
  is_empty (_ ∷ _) = false

  -- `slice(0, n)`
  abbrev pub take : ℕ → List A → List A
  take zero xs = []
  take (suc n) [] = []
  take (suc n) (x ∷ xs) = x ∷ take n xs

  abbrev pub drop : ℕ → List A → List A
  drop zero xs = xs
  drop (suc n) [] = []
  drop (suc n) (x ∷ xs) = drop n xs

  abbrev pub filter : (A → Bool) → List A → List A
  filter p [] = []
  filter p (x ∷ xs) = let rest = filter p xs in if p x then x ∷ rest else rest

  abbrev pub find : (A → Bool) → List A → Option A
  find p [] = none
  find p (x ∷ xs) = let rest = find p xs in if p x then some x else rest

  -- `some`
  abbrev pub any : (A → Bool) → List A → Bool
  any p [] = false
  any p (x ∷ xs) = p x || any p xs

  -- `every`
  abbrev pub all : (A → Bool) → List A → Bool
  all p [] = true
  all p (x ∷ xs) = p x && all p xs

  pub length-append : (xs ys : List A) → length (xs ++ ys) ≡ length xs + length ys
  length-append [] ys = omega arith
  length-append (x ∷ xs) ys = omega (arith, length-append xs ys)

  pub length-take : (n : ℕ) (xs : List A) → length (take n xs) ≡ min n (length xs)
  length-take zero xs = omega arith
  length-take (suc n) [] = omega arith
  length-take (suc n) (x ∷ xs) = omega (arith, length-take n xs)

  pub length-filter-le : (p : A → Bool) (xs : List A) → length (filter p xs) ≤ length xs
  length-filter-le p [] = omega arith
  length-filter-le p (x ∷ xs) = ground (arith, length-filter-le p xs)

  pub take-append-drop : (n : ℕ) (xs : List A) → take n xs ++ drop n xs ≡ xs
  take-append-drop zero xs = refl
  take-append-drop (suc n) [] = refl
  take-append-drop (suc n) (x ∷ xs) = ap (λ t. x ∷ t) (take-append-drop n xs)

  find-cases :
      (p : A → Bool) (x : A) (xs : List A) {a : A}
      → find p (x ∷ xs) ≡ some a
      → (x ≡ a) ⊎ (find p xs ≡ some a)
  find-cases p x xs {a} h = grind arith

  -- What `find` returns passes the test.
  pub find-some : (p : A → Bool) (xs : List A) {a : A} → find p xs ≡ some a → p a ≡ true
  find-some p [] h = cc
  find-some p (x ∷ xs) {a} h = ground (arith, find-some p xs {a = a})

  pub find-Memᴰ : (p : A → Bool) (xs : List A) {a : A} → find p xs ≡ some a → Memᴰ a xs
  find-Memᴰ p [] h = cc (h)
  find-Memᴰ p (x ∷ xs) {a} h =
      let rest = find-Memᴰ p xs {a = a} in
      elim (find-cases p x xs h) [ inl e ↦ Memᴰ.head (sym e) | inr e ↦ Memᴰ.tail (rest e) ]

  pub find-none : (p : A → Bool) (xs : List A) → find p xs ≡ none → All (λ x. p x ≡ false) xs
  find-none p [] h = tt
  find-none p (x ∷ xs) h = ground (arith, find-none p xs)

module _ {ℓ κ} {A : Type ℓ} where
  pub All-append : (P : A → Type κ) (xs ys : List A) → All P xs → All P ys → All P (xs ++ ys)
  All-append P [] ys hx hy = hy
  All-append P (x ∷ xs) ys hx hy = (hx.0, All-append P xs ys hx.1 hy)

  pub All-map : (P Q : A → Type κ) (xs : List A) → ((x : A) → P x → Q x) → All P xs → All Q xs
  All-map P Q [] f h = tt
  All-map P Q (x ∷ xs) f h = (f x h.0, All-map P Q xs f h.1)

  pub All-Memᴰ : (P : A → Type κ) {a : A} {xs : List A} → All P xs → Memᴰ a xs → P a
  All-Memᴰ P {xs = []} h m = elim m [ ]
  All-Memᴰ P {xs = x ∷ xs} h (Memᴰ.head e) = subst P (sym e) h.0
  All-Memᴰ P {xs = x ∷ xs} h (Memᴰ.tail m) = All-Memᴰ P h.1 m

  pub All-elim : (P : A → Type κ) {a : A} {xs : List A} → IsProp (P a) → All P xs → Mem a xs → P a
  All-elim P prop h m = ∥∥₁_elim m prop (λ d. All-Memᴰ P h d)

  pub All-filter : (P : A → Type κ) (p : A → Bool) (xs : List A) → All P xs → All P (filter p xs)
  All-filter P p [] h = tt
  All-filter P p (x ∷ xs) h = ground (arith, All-filter P p xs h.1)

  pub All-take : (P : A → Type κ) (n : ℕ) (xs : List A) → All P xs → All P (take n xs)
  All-take P zero xs h = tt
  All-take P (suc n) [] h = tt
  All-take P (suc n) (x ∷ xs) h = (h.0, All-take P n xs h.1)

  -- What holds of all, and the test, hold of those that `filter` keeps.
  pub filter-passes :
      (P : A → Type κ) (p : A → Bool) (xs : List A)
      → All P xs
      → All (λ (x : A). P x × (p x ≡ true)) (filter p xs)
  filter-passes P p [] h = tt
  filter-passes P p (x ∷ xs) h =
      let rest = filter-passes P p xs h.1 in
      if-cases (All (λ (y : A). P y × (p y ≡ true))) (p x) (λ e. ((h.0, e), rest)) (λ e. rest)

pub All-members {ℓ} : {A : Type ℓ} (xs : List A) → All (λ (x : A). Memᴰ x xs) xs
All-members [] = tt
All-members {A} (x ∷ xs) = (
  Memᴰ.head refl,
  All-map (λ (y : A). Memᴰ y xs) (λ (y : A). Memᴰ y (x ∷ xs)) xs (λ y m. Memᴰ.tail m)
      (All-members xs),
)
