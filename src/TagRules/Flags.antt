-- ===== src/TagRules/Flags.antt =====
-- Which rule `tagFlags` reports.
use chicoree.Prelude.{
  ◌≡◌, ap, refl, Bool, ◌&&◌, Option, none, some, List, [], ◌∷◌, find, Str, arith,
}
use chicoree.TagRules.{TagRule, TagFlags, flag_step, flags_from, tag_flags, match_tag_glob}

-- The rule that is kept: the one found before, else the first of the rest.
abbrev or_find : Option TagRule → (TagRule → Bool) → List TagRule → Option TagRule
or_find none p rules = find p rules
or_find (some r) p rules = some r

abbrev pub locks : Str → TagRule → Bool
locks tag r = r.immutable && match_tag_glob r.pattern tag

abbrev pub guards : Str → TagRule → Bool
guards tag r = r.protected && match_tag_glob r.pattern tag

-- One round, with the matcher's answer as a variable.
flag_step_lem :
    (tag : Str) (flags : TagFlags) (r : TagRule)
    → flag_step tag flags r ≡ record {
      immutable = or_find flags.immutable (locks tag) (r ∷ []);
      protected = or_find flags.protected (guards tag) (r ∷ []);
    }
unfolding flag_step
flag_step_lem tag flags r = ground arith

or_find-cons :
    (o : Option TagRule) (p : TagRule → Bool) (r : TagRule) (rules : List TagRule)
    → or_find (or_find o p (r ∷ [])) p rules ≡ or_find o p (r ∷ rules)
or_find-cons none p r rules = ground arith
or_find-cons (some x) p r rules = refl

flags_from_lem :
    (tag : Str) (flags : TagFlags) (rules : List TagRule)
    → flags_from tag flags rules ≡ record {
      immutable = or_find flags.immutable (locks tag) rules;
      protected = or_find flags.protected (guards tag) rules;
    }
unfolding flags_from
flags_from_lem tag flags [] = ground arith
flags_from_lem tag flags (r ∷ rules) =
    rw (flags_from_lem tag (flag_step tag flags r) rules, flag_step_lem tag flags r)
      (λ i. record {
        immutable = or_find-cons flags.immutable (locks tag) r rules i;
        protected = or_find-cons flags.protected (guards tag) r rules i;
      })

-- The one loop over the rules reports, for each of the two flags, the first rule that has it and
-- whose pattern the matcher accepts.
pub tag_flags-find :
    (rules : List TagRule) (tag : Str)
    → (tag_flags rules tag).immutable ≡ find (locks tag) rules
      × ((tag_flags rules tag).protected ≡ find (guards tag) rules)
unfolding tag_flags
tag_flags-find rules tag =
    let e = flags_from_lem tag (record { immutable = none; protected = none }) rules in
    (ap (λ f. f.immutable) e, ap (λ f. f.protected) e)
