-- ===== src/TagRules/Decision.antt =====
-- The matcher decides `Matches` on names without a star.
use chicoree.Prelude.{
  ℕ, zero, suc, ◌≡◌, ◌≢◌, ◌↔◌, ◌⊎◌, inl, inr, Bool, true, Option, none, some, [], ◌∷◌, ◌==◌, ◌||◌,
  Bool-cases, Str, arith,
}
use chicoree.TagRules.{Round, stop, go, round, run, match_tag_glob?, match_tag_glob}
use chicoree.TagRules.Rounds.{match_tag_glob?-total}
use chicoree.TagRules.Matching.{
  Matches, one, NoStar, AnyEnd, Alt, Holds, IsFirst, Inv, AnyEnd→star, star→AnyEnd, star_absorbs,
  only_stars_iff, backtrack_lem, AnyEnd-tail, one_inv, not_one,
}

-- At the end of the name a later start of the star cannot help either.
end_lem :
    (p : Str) (star : Option (Str × Str))
    → IsFirst p [] star
    → (Matches p [] ⊎ Alt star)
    → Matches p []
end_lem p star first (inl m) = m
end_lem p none first (inr e) = absurd e
end_lem p (some (star_p, [])) first (inr m) = first m
end_lem p (some (star_p, c ∷ n)) first (inr m) = first (inr m)

IsFirst-tail :
    (q : ℕ) (p : Str) (c : ℕ) (n : Str) (star : Option (Str × Str))
    → (q ≡ b'*' → ⊥)
    → IsFirst (q ∷ p) (c ∷ n) star
    → IsFirst p n star
IsFirst-tail q p c n none ne first = tt
IsFirst-tail q p c n (some (star_p, star_n)) ne first = λ m. AnyEnd-tail q p c n ne (first m)

-- At a star nothing is lost by forgetting the one before it.
newer_star :
    (q : ℕ) (p : Str) (n : Str) (star : Option (Str × Str))
    → q ≡ b'*'
    → IsFirst (q ∷ p) n star
    → (Matches (q ∷ p) n ⊎ Alt star)
    → Matches (q ∷ p) n
newer_star q p n star e first (inl m) = m
newer_star q p n none e first (inr m) = absurd m
newer_star q p n (some (star_p, [])) e first (inr m) = star_absorbs q p n e (first m)
newer_star q p n (some (star_p, c ∷ rest)) e first (inr m) = star_absorbs q p n e (first (inr m))

map_left : {A B C : Type 0} → (A → B) → A ⊎ C → B ⊎ C
map_left f (inl a) = inl (f a)
map_left f (inr c) = inr c

star_of :
    (q : ℕ) (p : Str) (c : ℕ) (n : Str)
    → q ≡ b'*'
    → (Matches p (c ∷ n) ⊎ AnyEnd p n)
    → Matches (q ∷ p) (c ∷ n)
star_of q p c n e h = AnyEnd→star q p (c ∷ n) e h

of_star :
    (q : ℕ) (p : Str) (c : ℕ) (n : Str)
    → q ≡ b'*'
    → Matches (q ∷ p) (c ∷ n)
    → Matches p (c ∷ n) ⊎ AnyEnd p n
of_star q p c n e m = star→AnyEnd q p (c ∷ n) e m

-- A round keeps the invariant and the answer.
round_lem :
    (p n : Str) (star : Option (Str × Str))
    → Inv (go p n star)
    → Inv (round p n star) × (Holds (round p n star) ↔ Holds (go p n star))
unfolding round
round_lem p [] star (first, clean, star_clean) =
    (tt, (λ h. inl ((only_stars_iff p).0 h), λ h. (only_stars_iff p).1 (end_lem p star first h)))
round_lem [] (c ∷ n) star inv = backtrack_lem [] c n star (λ m. elim m [ ]) inv
round_lem (q ∷ p) (c ∷ n) star (first, clean, star_clean) =
    elim (Bool-cases (q == b'?' || q == c)) [
      | inl e ↦
          let ne : q ≢ b'*' = ground (arith, clean.0) in
          rw e (
            (IsFirst-tail q p c n star ne first, clean.1, star_clean),
            (map_left (one (ground arith) ne), map_left (one_inv ne)),
          )
      | inr e ↦ rw e (elim (Bool-cases (q == b'*')) [
        | inl s ↦
            let is_star : q ≡ b'*' = ground arith in
            rw s (
              (λ m. m, clean, clean),
              (
                λ h. inl (star_of q p c n is_star h),
                λ h. of_star q p c n is_star (newer_star q p (c ∷ n) star is_star first h),
              ),
            )
        | inr s ↦ rw s (
            backtrack_lem (q ∷ p) c n star (not_one (ground arith) (ground arith) (ground arith))
              (first, clean, star_clean))
      ])
    ]

-- The answer of a run is the answer of its start.
run_lem : (fuel : ℕ) (r : Round) {b : Bool} → Inv r → run fuel r ≡ some b → (b ≡ true) ↔ Holds r
unfolding run
run_lem zero r inv e = cc
run_lem (suc fuel) (stop x) inv e = (λ h. cc, λ h. cc)
run_lem (suc fuel) (go p n star) inv e =
    let (kept, same) = round_lem p n star inv in
    let (forth, back) = run_lem fuel (round p n star) kept e in
    (λ h. same.0 (forth h), λ h. back (same.1 h))

answer_of :
    (pattern name : Str) {b : Bool}
    → match_tag_glob? pattern name ≡ some b
    → match_tag_glob pattern name ≡ b
unfolding match_tag_glob
answer_of pattern name {b} e = ground (arith, e)

runs :
    (pattern name : Str) {b : Bool}
    → NoStar name
    → match_tag_glob? pattern name ≡ some b
    → (b ≡ true) ↔ Holds (go pattern name none)
unfolding match_tag_glob?
runs pattern name clean e = run_lem _ (go pattern name none) (tt, clean, tt) e

not_alt : {A : Type 0} → A ⊎ ⊥ → A
not_alt (inl a) = a
not_alt (inr e) = absurd e

-- On a name without a star the backtracking matcher answers true exactly when the pattern matches
-- by the inductive description of `*`, `?` and literals.
pub match_tag_glob-decides :
    (pattern name : Str) → NoStar name → (match_tag_glob pattern name ≡ true) ↔ Matches pattern name
match_tag_glob-decides pattern name clean =
    let (b, e) = match_tag_glob?-total pattern name in
    let (forth, back) = runs pattern name clean e in
    rw (answer_of pattern name e) ((λ h. not_alt (forth h)), λ m. back (inl m))
