-- ===== src/Tests/TagMoves.antt =====
-- A registry that keeps its tags in a list, and the moves of "latest".
use chicoree.Prelude.{
  ◌≡◌, ◌≢◌, refl, sym, ap, ◌∙◌, Bool, true, if-cases, none, some, List, [], ◌∷◌, if◌then◌else◌, Str,
  str, str_eq, str_eq→eq,
}
use chicoree.Prelude.{differs}
use chicoree.TagRules.{TagRule, tag_flags, match_tag_glob, match_tag_glob?}
use chicoree.TagAdmin.{Registry, deleted, moved, digest_of, retag, delete_tag}
use chicoree.TagAdmin.Newest.{Tag, version_key, pick_newest}
use chicoree.TagAdmin.Locked.{OnlyNamed, retag-immutable, delete_tag-spares_protected}

abbrev tag : Str → Str → Tag
tag a b = record { name = a; digest = b }

unfoldable without : Str → List Tag → List Tag
without name [] = []
without name (t ∷ ts) = if str_eq t.name name then without name ts else t ∷ without name ts

abbrev registry : Registry
registry = record {
  delete = λ reference tags. (202, without reference tags);
  put = λ name digest tags. (201, tag name digest ∷ without name tags);
  has_manifest = λ digest. true;
  created_at = λ digest. none;
}

without-other :
    (name other : Str) (tags : List Tag)
    → other ≢ name
    → digest_of other (without name tags) ≡ digest_of other tags
unfolding without digest_of
without-other name other [] n = refl
without-other name other (t ∷ ts) n =
    if-cases
      (λ kept.
        digest_of other kept ≡ (if str_eq t.name other then some t.digest else digest_of other ts))
      (str_eq t.name name)
      (λ e.
        without-other name other ts n
        ∙ sym (
            ap (λ (x : Bool). if x then some t.digest else digest_of other ts)
              (differs t.name other (λ same. n (sym same ∙ str_eq→eq t.name name e)))))
      (λ d.
        ap (λ rest. if str_eq t.name other then some t.digest else rest)
          (without-other name other ts n))

put-other :
    (name digest other : Str) (tags : List Tag)
    → other ≢ name
    → digest_of other (tag name digest ∷ without name tags) ≡ digest_of other tags
unfolding digest_of
put-other name digest other tags n =
    ap (λ (x : Bool). if x then some digest else digest_of other (without name tags))
      (differs name other (λ same. n (sym same)))
    ∙ without-other name other tags n

registry-OnlyNamed : OnlyNamed registry
registry-OnlyNamed = record { delete_other = without-other; put_other = put-other }

abbrev tags : List Tag
tags = tag (str "latest") (str "b") ∷ tag (str "1.9") (str "a") ∷ tag (str "1.10") (str "b") ∷ []

abbrev locked : TagRule
locked = record { pattern = str "1.9"; immutable = true; protected = true; repository_id = none }

test_version :
    version_key (str "v1.10-rc1") ≡ some (record { major = 1; minor = 10; patch = 0; plain = 0 })
unfolding version_key str_eq
test_version = refl

-- The highest version, not the first in the list.
test_newest :
    pick_newest registry.created_at (tag (str "1.10") (str "b") ∷ tag (str "1.9") (str "a") ∷ [])
    ≡ some (tag (str "1.10") (str "b"))
unfolding pick_newest version_key str_eq
test_newest = refl

retag-immutable_example : (retag registry (locked ∷ []) (str "1.9") (str "b") tags).1 ≡ tags
unfolding tag_flags digest_of match_tag_glob match_tag_glob? str_eq
retag-immutable_example =
    retag-immutable registry (locked ∷ []) (str "1.9") (str "b") (str "a") locked tags refl refl

delete_tag-spares_protected_example :
    digest_of (str "1.9") (delete_tag registry (locked ∷ []) true (str "1.10") tags).1
    ≡ digest_of (str "1.9") tags
unfolding tag_flags match_tag_glob match_tag_glob? str_eq
delete_tag-spares_protected_example =
    delete_tag-spares_protected registry (locked ∷ []) true (str "1.10") (str "1.9") locked tags
      registry-OnlyNamed refl

-- "latest" named the image of the tag that is deleted, and follows the other.
test_latest :
    (delete_tag registry [] true (str "1.10") tags)
    ≡ (deleted (moved (str "1.9")), tag (str "latest") (str "a") ∷ tag (str "1.9") (str "a") ∷ [])
unfolding delete_tag tag_flags digest_of pick_newest version_key without str_eq
test_latest = refl
