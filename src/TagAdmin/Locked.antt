-- ===== src/TagAdmin/Locked.antt =====
-- Tags that rules lock stay where they are.
use chicoree.Prelude.{
  or_true, true-false, ℕ, ◌≡◌, ◌≢◌, ◌⊎◌, inl, inr, refl, sym, ap, ◌∙◌, Bool, true, false, not, ◌&&◌,
  ◌||◌, if-cases, Option, none, some, is_some, List, ◌==◌, filter, is_empty, Str, str, str_eq,
}
use chicoree.Prelude.{by_equality}
use chicoree.TagRules.{TagRule, tag_flags}
use chicoree.TagAdmin.Newest.{Tag, pick_newest}
use chicoree.TagAdmin.{
  Registry, Result, digest_of, same_digest, is_tag_name, retag, retag_unless, is_locked,
  latest_deleted, latest_put, follow_newest, move_latest, tag_deleted, delete_unless, delete_tag,
}

-- The registry changes no tag but the one that a request names.
pub record OnlyNamed (registry : Registry) : Type 0 where
  pub delete_other :
      (reference other : Str) (tags : List Tag)
      → other ≢ reference
      → digest_of other (registry.delete reference tags).1 ≡ digest_of other tags
  pub put_other :
      (reference digest other : Str) (tags : List Tag)
      → other ≢ reference
      → digest_of other (registry.put reference digest tags).1 ≡ digest_of other tags

module _ (registry : Registry) (rules : List TagRule) where
  retag_unless-immutable :
      (name digest : Str) (existing : Option Str) (old : Str) (found : Option TagRule)
      (rule : TagRule) (tags : List Tag)
      → found ≡ some rule
      → existing ≡ some old
      → (retag_unless registry rules name digest existing found tags).1 ≡ tags
  unfolding retag_unless
  retag_unless-immutable name digest none old found rule tags h e = cc (e)
  retag_unless-immutable name digest (some d) old none rule tags h e = cc (h)
  retag_unless-immutable name digest (some d) old (some r) rule tags h e = refl

  -- A tag that exists and that a rule makes immutable is not moved to another image: the request
  -- changes no tag of the repository.
  pub retag-immutable :
      (name digest old : Str) (rule : TagRule) (tags : List Tag)
      → (tag_flags rules name).immutable ≡ some rule
      → digest_of name tags ≡ some old
      → (retag registry rules name digest tags).1 ≡ tags
  unfolding retag
  retag-immutable name digest old rule tags h e =
      let Stays = λ (r : Result × List Tag). r.1 ≡ tags in
      if-cases Stays (not (is_tag_name name)) (λ _. refl)
        (λ _.
          if-cases Stays (not (registry.has_manifest digest)) (λ _. refl)
            (λ _.
              if-cases Stays (same_digest (digest_of name tags) digest) (λ _. refl)
                (λ _.
                  retag_unless-immutable name digest (digest_of name tags) old
                    (tag_flags rules name).immutable rule tags h e)))

  delete_unless-protected :
      (moves : Bool) (name : Str) (target : Option Str) (found : Option TagRule) (rule : TagRule)
      (tags : List Tag)
      → found ≡ some rule
      → (delete_unless registry rules moves name target found tags).1 ≡ tags
  unfolding delete_unless
  delete_unless-protected moves name none found rule tags h = refl
  delete_unless-protected moves name (some d) none rule tags h = cc (h)
  delete_unless-protected moves name (some d) (some r) rule tags h = refl

  protected-locked :
      (rule : TagRule)
      → (tag_flags rules (str "latest")).protected ≡ some rule
      → is_locked registry rules (str "latest") ≡ true
  protected-locked rule h =
      ap (λ p. is_some (tag_flags rules (str "latest")).immutable || is_some p) h
      ∙ or_true (is_some (tag_flags rules (str "latest")).immutable)

  -- The tag itself, whatever the registry would answer.
  delete_tag-protected :
      (moves : Bool) (name : Str) (rule : TagRule) (tags : List Tag)
      → (tag_flags rules name).protected ≡ some rule
      → (delete_tag registry rules moves name tags).1 ≡ tags
  unfolding delete_tag
  delete_tag-protected moves name rule tags h =
      delete_unless-protected moves name (digest_of name tags) (tag_flags rules name).protected rule
        tags h

  -- What follows the deletion touches "latest" alone.
  latest_deleted-other :
      (other : Str) (answer : ℕ × List Tag)
      → digest_of other (latest_deleted registry rules answer).1 ≡ digest_of other answer.1
  unfolding latest_deleted
  latest_deleted-other other (status, tags) =
      if-cases (λ (r : Result × List Tag). digest_of other r.1 ≡ digest_of other tags)
        (status == 202 || status == 404) (λ _. refl) (λ _. refl)

  latest_put-other :
      (other target : Str) (answer : ℕ × List Tag)
      → digest_of other (latest_put registry rules target answer).1 ≡ digest_of other answer.1
  unfolding latest_put
  latest_put-other other target (status, tags) =
      if-cases (λ (r : Result × List Tag). digest_of other r.1 ≡ digest_of other tags)
        (status == 201) (λ _. refl) (λ _. refl)

  module _ (only : OnlyNamed registry) (other : Str) where
    follow_newest-other :
        (old : Str) (pick : Option Tag) (tags : List Tag)
        → other ≢ str "latest"
        → digest_of other (follow_newest registry rules old pick tags).1 ≡ digest_of other tags
    unfolding follow_newest
    follow_newest-other old none tags n = refl
    follow_newest-other old (some pick) tags n =
        let Stays = λ (r : Result × List Tag). digest_of other r.1 ≡ digest_of other tags in
        if-cases Stays (str_eq pick.digest old) (λ _. refl)
          (λ _.
            if-cases Stays (not (registry.has_manifest pick.digest)) (λ _. refl)
              (λ _.
                latest_put-other other pick.name (registry.put (str "latest") pick.digest tags)
                ∙ only.put_other (str "latest") pick.digest other tags n))

    move_latest-other :
        (name old : Str) (tags : List Tag)
        → other ≢ str "latest"
        → digest_of other (move_latest registry rules name old tags).1 ≡ digest_of other tags
    unfolding move_latest
    move_latest-other name old tags n =
        let remaining =
          filter (λ t. not (str_eq t.name name) && not (str_eq t.name (str "latest"))) tags in
        if-cases (λ (r : Result × List Tag). digest_of other r.1 ≡ digest_of other tags)
          (is_empty remaining)
          (λ _.
            latest_deleted-other other (registry.delete (str "latest") tags)
            ∙ only.delete_other (str "latest") other tags n)
          (λ _. follow_newest-other old (pick_newest registry.created_at remaining) tags n)

    -- Another tag than the one deleted, which is not "latest", or which is and is locked.
    abbrev IsBystander : Type 0
    IsBystander = (other ≢ str "latest") ⊎ (is_locked registry rules (str "latest") ≡ true)

    unlocked-not_latest :
        IsBystander → is_locked registry rules (str "latest") ≡ false → other ≢ str "latest"
    unlocked-not_latest (inl n) l = n
    unlocked-not_latest (inr k) l = absurd (true-false (sym k ∙ l))

    tag_deleted-other :
        (moves : Bool) (name target : Str) (latest : Option Str) (answer : ℕ × List Tag)
        → IsBystander
        → digest_of other (tag_deleted registry rules moves name target latest answer).1
          ≡ digest_of other answer.1
    unfolding tag_deleted
    tag_deleted-other moves name target latest (status, tags) b =
        let Stays = λ (r : Result × List Tag). digest_of other r.1 ≡ digest_of other tags in
        if-cases Stays (status == 404) (λ _. refl)
          (λ _.
            if-cases Stays (not (status == 202)) (λ _. refl)
              (λ _.
                if-cases Stays
                  (not moves || str_eq name (str "latest") || not (same_digest latest target))
                  (λ _. refl)
                  (λ _.
                    if-cases Stays (is_locked registry rules (str "latest")) (λ _. refl)
                      (λ l. move_latest-other name target tags (unlocked-not_latest b l)))))

    delete_unless-other :
        (moves : Bool) (name : Str) (tags : List Tag) (target : Option Str) (found : Option TagRule)
        → other ≢ name
        → IsBystander
        → digest_of other (delete_unless registry rules moves name target found tags).1
          ≡ digest_of other tags
    unfolding delete_unless
    delete_unless-other moves name tags none found n b = refl
    delete_unless-other moves name tags (some d) (some rule) n b = refl
    delete_unless-other moves name tags (some d) none n b =
        tag_deleted-other moves name d (digest_of (str "latest") tags) (registry.delete name tags) b
        ∙ only.delete_other name other tags n

  delete_tag-other :
      (moves : Bool) (name other : Str) (tags : List Tag)
      → OnlyNamed registry
      → other ≢ name
      → (other ≢ str "latest") ⊎ (is_locked registry rules (str "latest") ≡ true)
      → digest_of other (delete_tag registry rules moves name tags).1 ≡ digest_of other tags
  unfolding delete_tag
  delete_tag-other moves name other tags only n b =
      delete_unless-other only other moves name tags (digest_of name tags)
        (tag_flags rules name).protected n b

  -- Where the registry changes no tag but the one that a request names, the deletion of any tag,
  -- with what it does to "latest", leaves a tag that a rule protects where it was, whatever the
  -- registry answers.
  pub delete_tag-spares_protected :
      (moves : Bool) (name other : Str) (rule : TagRule) (tags : List Tag)
      → OnlyNamed registry
      → (tag_flags rules other).protected ≡ some rule
      → digest_of other (delete_tag registry rules moves name tags).1 ≡ digest_of other tags
  delete_tag-spares_protected moves name other rule tags only h =
      let Stays =
        digest_of other (delete_tag registry rules moves name tags).1 ≡ digest_of other tags in
      by_equality other name
        (λ e. ap (digest_of other) (
          delete_tag-protected moves name rule tags
            (sym (ap (λ n. (tag_flags rules n).protected) e) ∙ h)))
        (λ n.
          by_equality other (str "latest")
            (λ e.
              delete_tag-other moves name other tags only n
                (inr (protected-locked rule (sym (ap (λ m. (tag_flags rules m).protected) e) ∙ h))))
            (λ l. delete_tag-other moves name other tags only n (inl l)))
