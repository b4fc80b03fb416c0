-- ===== src/TagRules.antt =====
-- web/src/lib/tag-rules-shared.ts: glob patterns on tags, and the rules that lock a tag.
-- A position in the pattern or in the name is the rest of the text from there on, so `p++` is the
-- tail; `starP` and `starN` are the rests behind the last star and from where it was tried.
pub mod Matching
pub mod Rounds
pub mod Decision
pub mod Flags
use chicoree.Prelude.{
  ℕ, zero, suc, ◌+◌, ◌*◌, ◌≡◌, Bool, true, false, not, ◌&&◌, ◌||◌, Option, none, some, List, [],
  ◌∷◌, ◌==◌, leb, if◌then◌else◌, Str, str, length, all, is_some,
}

pub record TagRule : Type 0 where
  pub pattern : Str
  pub immutable : Bool
  pub protected : Bool
  pub repository_id : Option Str

abbrev tail : Str → Str
tail [] = []
tail (_ ∷ s) = s

-- `while (p < pattern.length && pattern[p] === "*") p++; return p === pattern.length;`
pub only_stars : Str → Bool
only_stars [] = true
only_stars (q ∷ p) = q == b'*' && only_stars p

-- What one round of the loop leaves: the answer, or the variables of the next round.
pub data Round : Type 0 where
  stop : Bool → Round
  go : (p n : Str) → Option (Str × Str) → Round

-- The last two branches: back to the last star, or no match.
pub backtrack : Option (Str × Str) → Round
backtrack none = stop false
backtrack (some (star_p, star_n)) = go star_p (tail star_n) (some (star_p, tail star_n))

-- One round of the main loop.
round : (p n : Str) → Option (Str × Str) → Round
unfolding backtrack only_stars
round p [] star = stop (only_stars p)
round [] (c ∷ n) star = backtrack star
round (q ∷ p) (c ∷ n) star =
    if q == b'?' || q == c
    then go p n star
    else if q == b'*'
    then go p (c ∷ n) (some (p, c ∷ n))
    else backtrack star

-- The loop; `none` means that the fuel ran out.
run : ℕ → Round → Option Bool
unfolding round
run zero r = none
run (suc fuel) (stop b) = some b
run (suc fuel) (go p n star) = run fuel (round p n star)

-- Each return to a star moves `starN` on, and between two of them the pattern gets shorter.
abbrev rounds : Str → Str → ℕ
rounds pattern name = (length name + 2) * (length pattern + 2) + 2

unfoldable pub match_tag_glob? : Str → Str → Option Bool
unfolding run
match_tag_glob? pattern name = run (rounds pattern name) (go pattern name none)

-- The match as a test; `Rounds` proves that the fuel is never used up.
unfoldable pub match_tag_glob : Str → Str → Bool
match_tag_glob pattern name = elim (match_tag_glob? pattern name) [ some b ↦ b | none ↦ false ]

-- The class `[A-Za-z0-9_.*?-]`.
pattern_char : ℕ → Bool
pattern_char c =
    (leb b'A' c && leb c b'Z')
    || (leb b'a' c && leb c b'z')
    || (leb b'0' c && leb c b'9')
    || c == b'_'
    || c == b'.'
    || c == b'*'
    || c == b'?'
    || c == b'-'

pub data PatternProblem : Type 0 where
  no_pattern bad_pattern : PatternProblem

-- `null` is `none`; the two messages are the two problems.
unfoldable pub validate_tag_pattern : Str → Option PatternProblem
unfolding pattern_char
validate_tag_pattern [] = some no_pattern
validate_tag_pattern (c ∷ s) =
    if leb (length (c ∷ s)) 128 && all pattern_char (c ∷ s) then none else some bad_pattern

pub record TagFlags : Type 0 where
  pub immutable : Option TagRule
  pub protected : Option TagRule

-- One round of the loop of `tagFlags`.
flag_step : Str → TagFlags → TagRule → TagFlags
flag_step tag flags r =
    if (is_some flags.immutable || not r.immutable) && (is_some flags.protected || not r.protected)
    then flags
    else if not (match_tag_glob r.pattern tag)
    then flags
    else record {
      immutable = if r.immutable && not (is_some flags.immutable) then some r else flags.immutable;
      protected = if r.protected && not (is_some flags.protected) then some r else flags.protected;
    }

flags_from : Str → TagFlags → List TagRule → TagFlags
flags_from tag flags [] = flags
flags_from tag flags (r ∷ rules) = flags_from tag (flag_step tag flags r) rules

unfoldable pub tag_flags : List TagRule → Str → TagFlags
unfolding flags_from flag_step
tag_flags rules tag = flags_from tag (record { immutable = none; protected = none }) rules

-- The words of `describeTagRule`, before they are joined by " + "; no word is "no effect".
unfoldable pub describe_tag_rule : TagRule → List Str
describe_tag_rule rule =
    let rest : List Str = if rule.protected then str "protected" ∷ [] else [] in
    if rule.immutable then str "immutable" ∷ rest else rest
