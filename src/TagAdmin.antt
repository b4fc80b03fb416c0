-- ===== src/TagAdmin.antt =====
-- web/src/lib/tag-admin.ts: moving and deleting a tag through the registry. The registry is a
-- parameter that answers with a status and has changed the tags; the repository and its organization
-- exist.
pub mod Newest
pub mod Locked
use chicoree.Prelude.{
  ℕ, ◌+◌, Bool, true, false, not, ◌&&◌, ◌||◌, Option, none, some, is_some, List, [], ◌∷◌, all, drop,
  filter, length, leb, ltb, ◌==◌, if◌then◌else◌, Str, str, str_eq, is_empty,
}
use chicoree.TagRules.{TagRule, tag_flags}
use chicoree.TagAdmin.Newest.{Tag, pick_newest}

-- What the code calls: DELETE and PUT on a reference, and what it reads of an image.
pub record Registry : Type 0 where
  pub delete : (reference : Str) → List Tag → ℕ × List Tag
  pub put : (tag digest : Str) → List Tag → ℕ × List Tag
  pub has_manifest : Str → Bool
  pub created_at : Str → Option ℕ

pub data Problem : Type 0 where
  bad_name no_image no_tag : Problem
  immutable_by protected_by : TagRule → Problem
  refused latest_stays move_failed : (status : ℕ) → Problem
  unread : (target : Str) → Problem

pub data Latest : Type 0 where
  removed unchanged : Latest
  moved : (target : Str) → Latest

pub data Result : Type 0 where
  threw : Problem → Result
  retagged : (previous : Option Str) → (changed : Bool) → Result
  deleted : Latest → Result

-- The digest that a name points at.
unfoldable pub digest_of : Str → List Tag → Option Str
digest_of name [] = none
digest_of name (t ∷ ts) =
    let rest = digest_of name ts in if str_eq t.name name then some t.digest else rest

is_word : ℕ → Bool
is_word c =
    (leb b'a' c && leb c b'z')
    || (leb b'A' c && leb c b'Z')
    || (leb b'0' c && leb c b'9')
    || c == b'_'

-- `TAG_NAME_RE`, and the tests before it.
unfoldable pub is_tag_name : Str → Bool
unfolding is_word
is_tag_name [] = false
is_tag_name (c ∷ s) =
    is_word c && (leb (length s) 127 && all (λ d. is_word d || d == b'.' || d == b'-') s)

abbrev same_digest : Option Str → Str → Bool
same_digest none digest = false
same_digest (some d) digest = str_eq d digest

module _ (registry : Registry) (rules : List TagRule) where
  -- Behind the answer to the PUT.
  retag_answered : Option Str → ℕ × List Tag → Result × List Tag
  retag_answered existing (status, tags) =
      if status == 201 then (retagged existing true, tags) else (threw (refused status), tags)

  -- Behind the look-up of an immutable rule, which holds for a tag that exists.
  retag_unless : Str → Str → Option Str → Option TagRule → List Tag → Result × List Tag
  unfolding retag_answered
  retag_unless name digest none rule tags = retag_answered none (registry.put name digest tags)
  retag_unless name digest (some d) none tags =
      retag_answered (some d) (registry.put name digest tags)
  retag_unless name digest (some d) (some rule) tags = (threw (immutable_by rule), tags)

  unfoldable pub retag : (name digest : Str) → List Tag → Result × List Tag
  unfolding is_tag_name digest_of retag_unless str_eq
  retag name digest tags =
      let existing = digest_of name tags in
      if not (is_tag_name name)
      then (threw bad_name, tags)
      else if not (registry.has_manifest digest)
      then (threw no_image, tags)
      else if same_digest existing digest
      then (retagged (some digest) false, tags)
      else retag_unless name digest existing (tag_flags rules name).immutable tags

  latest_deleted : ℕ × List Tag → Result × List Tag
  latest_deleted (status, tags) =
      if status == 202 || status == 404
      then (deleted removed, tags)
      else (threw (latest_stays status), tags)

  latest_put : Str → ℕ × List Tag → Result × List Tag
  latest_put target (status, tags) =
      if status == 201 then (deleted (moved target), tags) else (threw (move_failed status), tags)

  -- "latest" follows the newest image that remains.
  follow_newest : (old : Str) → Option Tag → List Tag → Result × List Tag
  unfolding latest_put str_eq
  follow_newest old none tags = (deleted unchanged, tags)
  follow_newest old (some pick) tags =
      if str_eq pick.digest old
      then (deleted unchanged, tags)
      else if not (registry.has_manifest pick.digest)
      then (threw (unread pick.name), tags)
      else latest_put pick.name (registry.put (str "latest") pick.digest tags)

  move_latest : (name old : Str) → List Tag → Result × List Tag
  unfolding latest_deleted follow_newest pick_newest str_eq
  move_latest name old tags =
      let remaining =
        filter (λ t. not (str_eq t.name name) && not (str_eq t.name (str "latest"))) tags in
      if is_empty remaining
      then latest_deleted (registry.delete (str "latest") tags)
      else follow_newest old (pick_newest registry.created_at remaining) tags

  abbrev pub is_locked : Str → Bool
  is_locked name =
      is_some (tag_flags rules name).immutable || is_some (tag_flags rules name).protected

  -- Behind the answer to the DELETE: `target` is the digest of the tag, `latest` that of "latest".
  tag_deleted : Bool → (name target : Str) → Option Str → ℕ × List Tag → Result × List Tag
  unfolding move_latest str_eq
  tag_deleted moves name target latest (status, tags) =
      if status == 404
      then (threw no_tag, tags)
      else if not (status == 202)
      then (threw (refused status), tags)
      else if not moves || str_eq name (str "latest") || not (same_digest latest target)
      then (deleted unchanged, tags)
      else if is_locked (str "latest")
      then (deleted unchanged, tags)
      else move_latest name target tags

  delete_unless : Bool → Str → Option Str → Option TagRule → List Tag → Result × List Tag
  unfolding tag_deleted digest_of
  delete_unless moves name none rule tags = (threw no_tag, tags)
  delete_unless moves name (some target) (some rule) tags = (threw (protected_by rule), tags)
  delete_unless moves name (some target) none tags =
      tag_deleted moves name target (digest_of (str "latest") tags) (registry.delete name tags)

  unfoldable pub delete_tag : (moves : Bool) → (name : Str) → List Tag → Result × List Tag
  unfolding delete_unless digest_of
  delete_tag moves name tags =
      delete_unless moves name (digest_of name tags) (tag_flags rules name).protected tags
