-- ===== src/TagRules/Rounds.antt =====
-- The matcher's loop always ends within its fuel.
use chicoree.Prelude.{
  ℕ, zero, suc, ◌+◌, ◌*◌, ◌≤◌, ◌<◌, ◌≡◌, refl, Bool, Option, none, some, [], ◌∷◌, ◌||◌, inl, inr,
  ◌==◌, Bool-cases, Str, length, arith,
}
use chicoree.TagRules.{Round, stop, go, backtrack, round, run, match_tag_glob?}

-- The star's rest of the pattern is no longer than the pattern, its rest of the name no longer
-- than `k` and no shorter than the current one.
abbrev StarFits : ℕ → ℕ → Str → Option (Str × Str) → Type 0
StarFits size k n none = Unit
StarFits size k n (some (star_p, star_n)) =
    (length star_p ≤ size) × (length star_n ≤ k) × (length n ≤ length star_n)

abbrev Fits : ℕ → ℕ → Str → Str → Option (Str × Str) → Type 0
Fits size k p n star = (length p ≤ size) × (length n ≤ k) × StarFits size k n star

-- The round has stopped, or its measure is below `bound`.
abbrev Falls : ℕ → ℕ → Round → Type 0
Falls size bound (stop b) = Unit
Falls size bound (go p n star) =
    (k : ℕ) × Fits size k p n star × (k * (size + 2) + length p < bound)

backtrack-Falls :
    (size k : ℕ) (c : ℕ) (n : Str) (star : Option (Str × Str))
    → StarFits size k (c ∷ n) star
    → Falls size (k * (size + 2)) (backtrack star)
unfolding backtrack
backtrack-Falls size k c n none h = tt
backtrack-Falls size k c n (some (star_p, [])) h = absurd (omega arith)
backtrack-Falls size zero c n (some (star_p, d ∷ star_n)) h = absurd (omega arith)
backtrack-Falls size (suc k) c n (some (star_p, d ∷ star_n)) h =
    (k, (h.0, omega arith, (h.0, omega arith, omega arith)), omega arith)

weaken : (size a b : ℕ) (r : Round) → a ≤ b → Falls size a r → Falls size b r
weaken size a b (stop x) h f = tt
weaken size a b (go p n star) h (k, fits, less) = (k, fits, omega arith)

-- Every round stops or makes the measure smaller.
round-Falls :
    (size k : ℕ) (p n : Str) (star : Option (Str × Str))
    → Fits size k p n star
    → Falls size (k * (size + 2) + length p) (round p n star)
unfolding round
round-Falls size k p [] star h = tt
round-Falls size k [] (c ∷ n) star (_, _, h) =
    weaken size (k * (size + 2)) _ (backtrack star) (omega arith)
      (backtrack-Falls size k c n star h)
round-Falls size k (q ∷ p) (c ∷ n) star (hp, hn, h) = elim (Bool-cases (q == b'?' || q == c)) [
  | inl e ↦ rw e (k, (omega arith, omega arith, shorter star h), omega arith)
  | inr e ↦ rw e (elim (Bool-cases (q == b'*')) [
    | inl s ↦ rw s (k, (omega arith, hn, (omega arith, hn, omega arith)), omega arith)
    | inr s ↦ rw s (
        weaken size (k * (size + 2)) _ (backtrack star) (omega arith)
          (backtrack-Falls size k c n star h))
  ])
]
  where
    shorter : (o : Option (Str × Str)) → StarFits size k (c ∷ n) o → StarFits size k n o
    shorter none h' = tt
    shorter (some (star_p, star_n)) h' = (h'.0, h'.1, omega arith)

run-total :
    (size fuel bound : ℕ) (r : Round)
    → Falls size bound r
    → bound + 1 < fuel
    → (b : Bool) × (run fuel r ≡ some b)
unfolding run
run-total size zero bound r f h = absurd (omega arith)
run-total size (suc fuel) bound (stop b) f h = (b, refl)
run-total size (suc fuel) bound (go p n star) (k, fits, less) h =
    run-total size fuel _ (round p n star) (round-Falls size k p n star fits) (omega arith)

-- The matcher's loop answers on every pattern and name within its fuel.
pub match_tag_glob?-total :
    (pattern name : Str) → (b : Bool) × (match_tag_glob? pattern name ≡ some b)
unfolding match_tag_glob?
match_tag_glob?-total pattern name =
    run-total (length pattern) _ ((length name) * (length pattern + 2) + length pattern + 1)
      (go pattern name none) (length name, (omega arith, omega arith, tt), omega arith)
      (omega arith)
