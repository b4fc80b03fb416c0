-- ===== src/Pagination/Window.antt =====
-- The page numbers that are shown.
use native.Mathlib.Decide.{dec_le}
use chicoree.Prelude.{
  ℕ, zero, suc, ◌+◌, ◌-◌, ◌/◌, ◌≤◌, ◌<◌, ◌≡◌, ◌⊎◌, inl, inr, refl, ap, Bool, true, false, List, [],
  ◌∷◌, ◌++◌, ltb, leb, ◌==◌, min, max, if◌then◌else◌, length, length-append, All, All-append, any,
  arith, Bool-cases, ◌||◌, leb→le, leb→gt,
}
use chicoree.Pagination.{numbers_from, page_window}

-- A gap, or the number of a page.
abbrev pub IsEntry : ℕ → ℕ → Type 0
IsEntry pages p = (p ≡ 0) ⊎ ((1 ≤ p) × (p ≤ pages))

length-numbers_from : (first n : ℕ) → length (numbers_from first n) ≡ n
unfolding numbers_from
length-numbers_from first zero = refl
length-numbers_from first (suc n) = ap suc (length-numbers_from (first + 1) n)

numbers_from-IsEntry :
    (pages first n : ℕ)
    → 1 ≤ first
    → first + n ≤ pages + 1
    → All (IsEntry pages) (numbers_from first n)
unfolding numbers_from
numbers_from-IsEntry pages first zero h k = tt
numbers_from-IsEntry pages first (suc n) h k =
    (inr (h, omega arith), numbers_from-IsEntry pages (first + 1) n (omega arith) (omega arith))

abbrev pub shows : ℕ → List ℕ → Bool
shows p = any (λ q. q == p)

shows-numbers_from :
    (p first n : ℕ) → first ≤ p → p < first + n → shows p (numbers_from first n) ≡ true
unfolding numbers_from
shows-numbers_from p first zero h k = absurd (omega arith)
shows-numbers_from p first (suc n) h k = ground (arith, shows-numbers_from p (first + 1) n)

abbrev gap : Bool → List ℕ
gap b = if b then 0 ∷ [] else []

length-gap : (b : Bool) → length (gap b) ≤ 1
length-gap true = omega arith
length-gap false = omega arith

abbrev shape : Bool → List ℕ → Bool → ℕ → List ℕ
shape a ns b pages = 1 ∷ (gap a ++ (ns ++ (gap b ++ pages ∷ [])))

length-shape :
    (a b : Bool) (ns : List ℕ) (pages n : ℕ) → length ns ≡ n → length (shape a ns b pages) ≤ n + 4
length-shape a b ns pages n e = omega (
  arith,
  length-append (gap a) (ns ++ (gap b ++ pages ∷ [])),
  length-append ns (gap b ++ pages ∷ []),
  length-append (gap b) (pages ∷ []),
  length-gap a,
  length-gap b,
  e,
)

All-shape :
    (P : ℕ → Type 0) (a b : Bool) (ns : List ℕ) (pages : ℕ)
    → P 0
    → P 1
    → P pages
    → All P ns
    → All P (shape a ns b pages)
All-shape P a b ns pages h0 h1 hp h = (
  h1,
  All-append P (gap a) _ (gaps a)
      (All-append P ns _ h (All-append P (gap b) (pages ∷ []) (gaps b) (hp, tt))),
)
  where
    gaps : (c : Bool) → All P (gap c)
    gaps true = (h0, tt)
    gaps false = tt

any-append : (p : ℕ → Bool) (xs ys : List ℕ) → any p (xs ++ ys) ≡ (any p xs || any p ys)
any-append p [] ys = refl
any-append p (x ∷ xs) ys = ground (arith, any-append p xs ys)

shows-shape :
    (p : ℕ) (a b : Bool) (ns : List ℕ) (pages : ℕ)
    → (p ≡ 1) ⊎ ((p ≡ pages) ⊎ (shows p ns ≡ true))
    → shows p (shape a ns b pages) ≡ true
shows-shape p a b ns pages h = ground (
  arith,
  any-append (λ q. q == p) (gap a) (ns ++ (gap b ++ pages ∷ [])),
  any-append (λ q. q == p) ns (gap b ++ pages ∷ []),
  any-append (λ q. q == p) (gap b) (pages ∷ []),
)

-- The numbers in the middle.
abbrev inner : ℕ → ℕ
inner most = max 1 (most - 4)

abbrev start : ℕ → ℕ → ℕ → ℕ
start page pages most = min (max 2 (page - inner most / 2)) (pages - inner most)

page_window-shape :
    (page pages most : ℕ)
    → leb pages most ≡ false
    → (a b : Bool) × (page_window page pages most
        ≡ shape a (numbers_from (start page pages most) (inner most)) b pages)
unfolding page_window
page_window-shape page pages most e = (
  ltb 2 (start page pages most),
  ltb (start page pages most + inner most - 1) (pages - 1),
  rw e refl,
)

page_window-few :
    (page pages most : ℕ)
    → leb pages most ≡ true
    → page_window page pages most ≡ numbers_from 1 pages
unfolding page_window
page_window-few page pages most e = rw e refl

current :
    (page pages most : ℕ)
    → 5 ≤ most
    → 1 ≤ page
    → page ≤ pages
    → most < pages
    → (page ≡ 1)
      ⊎ ((page ≡ pages) ⊎ (shows page (numbers_from (start page pages most) (inner most)) ≡ true))
current page pages most h low high many = elim (dec_le page 1) [
  | yes p ↦ inl (omega arith)
  | no p ↦ elim (dec_le pages page) [
    | yes q ↦ inr (inl (omega arith))
    | no q ↦ inr (
        inr (
          shows-numbers_from page (start page pages most) (inner most) (omega arith) (omega arith)))
  ]
]

-- With room for five entries or more the control shows at most as many as asked for, each a gap or
-- a page of the list, among them the first, the last and the current page.
pub page_window-fits :
    (page pages most : ℕ)
    → 5 ≤ most
    → 1 ≤ page
    → page ≤ pages
    → (length (page_window page pages most) ≤ most)
      × All (IsEntry pages) (page_window page pages most)
      × (shows 1 (page_window page pages most) ≡ true)
      × (shows pages (page_window page pages most) ≡ true)
      × (shows page (page_window page pages most) ≡ true)
page_window-fits page pages most h low high = elim (Bool-cases (leb pages most)) [
  | inl e ↦ rw (page_window-few page pages most e) (
    omega (arith, length-numbers_from 1 pages, leb→le pages most e),
    numbers_from-IsEntry pages 1 pages (omega arith) (omega arith),
    shows-numbers_from 1 1 pages (omega arith) (omega arith),
    shows-numbers_from pages 1 pages (omega arith) (omega arith),
    shows-numbers_from page 1 pages (omega arith) (omega arith),
  )
  | inr e ↦
      let many : most < pages = leb→gt pages most e in
      let (a, b, same) = page_window-shape page pages most e in
      let middle = numbers_from (start page pages most) (inner most) in
      rw same (
        omega (
          arith,
          length-shape a b middle pages (inner most)
              (length-numbers_from (start page pages most) (inner most)),
        ),
        All-shape (IsEntry pages) a b middle pages (inl refl) (inr (omega arith, omega arith))
            (inr (omega arith, omega arith))
            (numbers_from-IsEntry pages (start page pages most) (inner most) (omega arith)
              (omega arith)),
        shows-shape 1 a b middle pages (inl refl),
        shows-shape pages a b middle pages (inr (inl refl)),
        shows-shape page a b middle pages (current page pages most h low high many),
      )
]
