-- ===== src/TagRules/Matching.antt =====
-- What the matcher decides, against an independent description of the patterns.
use chicoree.Prelude.{
  ℕ, ◌≡◌, ◌≢◌, ◌⊎◌, ◌↔◌, inl, inr, refl, true, Option, none, some, [], ◌∷◌, Str, All, arith,
}
use chicoree.TagRules.{tail, only_stars, Round, stop, go, backtrack}

-- `*` is any run of characters, `?` exactly one, everything else literal.
pub data Matches : Str → Str → Type 0 where
  done : Matches [] []
  one :
      {q c : ℕ} {p n : Str}
      → (q ≡ b'?') ⊎ (q ≡ c)
      → q ≢ b'*'
      → Matches p n
      → Matches (q ∷ p) (c ∷ n)
  skip : {q : ℕ} {p n : Str} → q ≡ b'*' → Matches p n → Matches (q ∷ p) n
  take : {q c : ℕ} {p n : Str} → q ≡ b'*' → Matches (q ∷ p) n → Matches (q ∷ p) (c ∷ n)

-- No character of the name is a star; no tag has one.
abbrev pub NoStar : Str → Type 0
NoStar = All (λ c. c ≢ b'*')

-- The pattern matches the text or one of its ends.
abbrev pub AnyEnd : Str → Str → Type 0
AnyEnd p [] = Matches p []
AnyEnd p (c ∷ n) = Matches p (c ∷ n) ⊎ AnyEnd p n

-- What is still to be tried from the last star: its rest of the pattern, one character later.
abbrev pub Alt : Option (Str × Str) → Type 0
Alt none = ⊥
Alt (some (star_p, star_n)) = AnyEnd star_p (tail star_n)

abbrev pub Holds : Round → Type 0
Holds (stop b) = b ≡ true
Holds (go p n star) = Matches p n ⊎ Alt star

-- Since the last star, the loop has read the part of the pattern before `p` at its first place: a
-- later match of the star's rest leaves a later match of `p`.
abbrev pub IsFirst : Str → Str → Option (Str × Str) → Type 0
IsFirst p n none = Unit
IsFirst p n (some (star_p, star_n)) = AnyEnd star_p star_n → AnyEnd p n

abbrev pub StarClean : Option (Str × Str) → Type 0
StarClean none = Unit
StarClean (some (star_p, star_n)) = NoStar star_n

abbrev pub Inv : Round → Type 0
Inv (stop b) = Unit
Inv (go p n star) = IsFirst p n star × NoStar n × StarClean star

pub AnyEnd→star : (q : ℕ) (p n : Str) → q ≡ b'*' → AnyEnd p n → Matches (q ∷ p) n
AnyEnd→star q p [] e m = skip e m
AnyEnd→star q p (c ∷ n) e (inl m) = skip e m
AnyEnd→star q p (c ∷ n) e (inr m) = take e (AnyEnd→star q p n e m)

pub star→AnyEnd : (q : ℕ) (p n : Str) → q ≡ b'*' → Matches (q ∷ p) n → AnyEnd p n
star→AnyEnd q p [] e (skip _ m) = m
star→AnyEnd q p (c ∷ n) e (one _ ne m) = absurd (ne e)
star→AnyEnd q p (c ∷ n) e (skip _ m) = inl m
star→AnyEnd q p (c ∷ n) e (take _ m) = inr (star→AnyEnd q p n e m)

-- A star before the pattern takes in what is left out of an end.
pub star_absorbs : (q : ℕ) (p n : Str) → q ≡ b'*' → AnyEnd (q ∷ p) n → Matches (q ∷ p) n
star_absorbs q p [] e m = m
star_absorbs q p (c ∷ n) e (inl m) = m
star_absorbs q p (c ∷ n) e (inr m) = take e (star_absorbs q p n e m)

only_stars_cons :
    (q : ℕ) (p : Str)
    → (only_stars p ≡ true) ↔ Matches p []
    → (only_stars (q ∷ p) ≡ true) ↔ Matches (q ∷ p) []
unfolding only_stars
only_stars_cons q p ih = (λ h. skip (ground arith) (ih.0 (ground arith)), back)
  where
    back : Matches (q ∷ p) [] → only_stars (q ∷ p) ≡ true
    back (skip e m) = ground (arith, ih.1 m)

pub only_stars_iff : (p : Str) → (only_stars p ≡ true) ↔ Matches p []
unfolding only_stars
only_stars_iff [] = (λ _. done, λ _. refl)
only_stars_iff (q ∷ p) = only_stars_cons q p (only_stars_iff p)

pub AnyEnd-cases : (p n : Str) → AnyEnd p n ↔ (Matches p n ⊎ AnyEnd p (tail n))
AnyEnd-cases p [] = (λ m. inl m, λ m. elim m [ inl h ↦ h | inr h ↦ h ])
AnyEnd-cases p (c ∷ n) = (λ m. m, λ m. m)

NoStar-tail : (n : Str) → NoStar n → NoStar (tail n)
NoStar-tail [] h = tt
NoStar-tail (c ∷ n) h = h.1

-- The two equivalences that hold where a round goes back to the last star.
pub backtrack_lem :
    (p : Str) (c : ℕ) (n : Str) (star : Option (Str × Str))
    → ¬ Matches p (c ∷ n)
    → Inv (go p (c ∷ n) star)
    → Inv (backtrack star) × (Holds (backtrack star) ↔ Holds (go p (c ∷ n) star))
unfolding backtrack
backtrack_lem p c n none fails inv =
    (tt, (λ h. cc, λ h. elim h [ inl m ↦ absurd (fails m) | inr e ↦ absurd e ]))
backtrack_lem p c n (some (star_p, star_n)) fails (_, _, clean) = (
  (λ m. m, NoStar-tail star_n clean, NoStar-tail star_n clean),
  (
    λ h. inr ((AnyEnd-cases star_p (tail star_n)).1 h),
    λ h. elim h [ inl m ↦ absurd (fails m) | inr m ↦ (AnyEnd-cases star_p (tail star_n)).0 m ],
  ),
)

-- No character of the pattern at hand is read twice: a match of a longer pattern at an end of the
-- name gives one of its tail at a later end.
pub AnyEnd-tail :
    (q : ℕ) (p : Str) (c : ℕ) (n : Str) → q ≢ b'*' → AnyEnd (q ∷ p) (c ∷ n) → AnyEnd p n
AnyEnd-tail q p c [] ne (inl (one _ _ m)) = m
AnyEnd-tail q p c [] ne (inl (skip e _)) = absurd (ne e)
AnyEnd-tail q p c [] ne (inl (take e _)) = absurd (ne e)
AnyEnd-tail q p c [] ne (inr (skip e _)) = absurd (ne e)
AnyEnd-tail q p c (d ∷ n) ne (inl (one _ _ m)) = inl m
AnyEnd-tail q p c (d ∷ n) ne (inl (skip e _)) = absurd (ne e)
AnyEnd-tail q p c (d ∷ n) ne (inl (take e _)) = absurd (ne e)
AnyEnd-tail q p c (d ∷ n) ne (inr m) = inr (AnyEnd-tail q p d n ne m)

pub one_inv : {q c : ℕ} {p n : Str} → q ≢ b'*' → Matches (q ∷ p) (c ∷ n) → Matches p n
one_inv ne (one _ _ m) = m
one_inv ne (skip e _) = absurd (ne e)
one_inv ne (take e _) = absurd (ne e)

pub not_one : {q c : ℕ} {p n : Str} → q ≢ b'?' → q ≢ c → q ≢ b'*' → ¬ Matches (q ∷ p) (c ∷ n)
not_one a b ne (one (inl e) _ _) = a e
not_one a b ne (one (inr e) _ _) = b e
not_one a b ne (skip e _) = ne e
not_one a b ne (take e _) = ne e
