-- ===== src/Tests/TagRules.antt =====
-- Patterns and rules on small inputs.
use chicoree.Prelude.{◌≡◌, ◌↔◌, refl, Bool, true, false, none, some, [], ◌∷◌, str, arith, str_eq}
use chicoree.TagRules.{
  TagRule, match_tag_glob, match_tag_glob?, tag_flags, validate_tag_pattern, bad_pattern,
  no_pattern,
}
use chicoree.TagRules.Matching.{Matches}
use chicoree.TagRules.Rounds.{match_tag_glob?-total}
use chicoree.TagRules.Decision.{match_tag_glob-decides}

matcher : Unit {0}
unfolding match_tag_glob match_tag_glob? tag_flags validate_tag_pattern str_eq
matcher = tt

match_tests :
    (match_tag_glob (str "v*") (str "v1.2") ≡ true)
    × (match_tag_glob (str "*-rc?") (str "1-rc-rc2") ≡ true)
    × (match_tag_glob (str "*-rc?") (str "1-rc") ≡ false)
    × (match_tag_glob (str "a*b*c") (str "axbxxbc") ≡ true)
    × (match_tag_glob (str "") (str "x") ≡ false)
    × (match_tag_glob (str "**") (str "") ≡ true)
unfolding matcher
match_tests = (refl, refl, refl, refl, refl, refl)

-- A star in the name is read as itself: no tag has one.
match_star_name : match_tag_glob (str "*") (str "*a") ≡ false
unfolding matcher
match_star_name = refl

abbrev releases : TagRule
releases = record { pattern = str "v*"; immutable = true; protected = false; repository_id = none }

abbrev latest : TagRule
latest = record { pattern = str "*"; immutable = false; protected = true; repository_id = none }

tag_flags_test : (tag_flags (releases ∷ latest ∷ []) (str "v1")).immutable ≡ some releases
unfolding matcher
tag_flags_test = refl

validate_tests :
    (validate_tag_pattern (str "v*.?") ≡ none)
    × (validate_tag_pattern (str "v 1") ≡ some bad_pattern)
    × (validate_tag_pattern (str "") ≡ some no_pattern)
unfolding matcher
validate_tests = (refl, refl, refl)

match_tag_glob-decides_example :
    (match_tag_glob (str "v*") (str "v12") ≡ true) ↔ Matches (str "v*") (str "v12")
match_tag_glob-decides_example = match_tag_glob-decides (str "v*") (str "v12") (omega arith)

match_tag_glob?-total_example : (b : Bool) × (match_tag_glob? (str "a*b") (str "aab") ≡ some b)
match_tag_glob?-total_example = match_tag_glob?-total (str "a*b") (str "aab")
