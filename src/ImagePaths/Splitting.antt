-- ===== src/ImagePaths/Splitting.antt =====
-- The path that people see leads back to the repository.
use chicoree.Prelude.{
  ==_iff, str_eq→eq, ℕ, ◌≡◌, ◌≢◌, ◌⊎◌, inl, inr, refl, sym, ap, ◌∙◌, Bool, false, ◌||◌, none, some,
  List, [], ◌∷◌, ◌++◌, any, ◌==◌, if◌then◌else◌, if-cases, Str, str_eq, is_empty, true-false,
}
use chicoree.ImagePaths.{
  library_slug, is_library, image_path, onto_first, split, join, Target, target_of,
  split_image_path,
}

abbrev has_slash : Str → Bool
has_slash s = any (λ c. c == b'/') s

onto_first-join : (c : ℕ) (ps : List Str) → ps ≢ [] → join (onto_first c ps) ≡ c ∷ join ps
unfolding join onto_first
onto_first-join c [] n = absurd (n refl)
onto_first-join c (p ∷ []) n = refl
onto_first-join c (p ∷ q ∷ ps) n = refl

onto_first-not_empty : (c : ℕ) (ps : List Str) → onto_first c ps ≢ []
unfolding onto_first
onto_first-not_empty c [] e = cc (e)
onto_first-not_empty c (p ∷ ps) e = cc (e)

split-not_empty : (s : Str) → split s ≢ []
unfolding split
split-not_empty [] e = cc (e)
split-not_empty (c ∷ s) e =
    if-cases (λ (ps : List Str). ps ≢ []) (c == b'/') (λ _ k. cc (k))
      (λ _ k. onto_first-not_empty c (split s) k) e

join_first : (ps : List Str) → ps ≢ [] → join ([] ∷ ps) ≡ b'/' ∷ join ps
unfolding join
join_first [] n = absurd (n refl)
join_first (p ∷ ps) n = refl

join_empty : join ([] ∷ []) ≡ []
unfolding join
join_empty = refl

join-split : (s : Str) → join (split s) ≡ s
unfolding split
join-split [] = join_empty
join-split (c ∷ s) =
    if-cases (λ (ps : List Str). join ps ≡ c ∷ s) (c == b'/')
      (λ e.
        join_first (split s) (split-not_empty s)
        ∙ ap (λ n. n ∷ join (split s)) (sym ((==_iff c b'/').0 e))
        ∙ ap (λ t. c ∷ t) (join-split s))
      (λ _. onto_first-join c (split s) (split-not_empty s) ∙ ap (λ t. c ∷ t) (join-split s))

split-append : (s rest : Str) → has_slash s ≡ false → split (s ++ b'/' ∷ rest) ≡ s ∷ split rest
unfolding split onto_first
split-append [] rest h = refl
split-append (c ∷ s) rest h =
    if-cases (λ (ps : List Str). ps ≡ (c ∷ s) ∷ split rest) (c == b'/')
      (λ e. absurd (true-false (sym (ap (λ x. x || has_slash s) e) ∙ h)))
      (λ d. ap (onto_first c) (split-append s rest (sym (ap (λ x. x || has_slash s) d) ∙ h)))

split_one : (s : Str) → has_slash s ≡ false → split s ≡ s ∷ []
unfolding split onto_first
split_one [] h = refl
split_one (c ∷ s) h =
    if-cases (λ (ps : List Str). ps ≡ (c ∷ s) ∷ []) (c == b'/')
      (λ e. absurd (true-false (sym (ap (λ x. x || has_slash s) e) ∙ h)))
      (λ d. ap (onto_first c) (split_one s (sym (ap (λ x. x || has_slash s) d) ∙ h)))

abbrev target : Str → Str → Target
target org repo = record { org_slug = org; repo_name = repo }

target_of_two :
    (org : Str) (ps : List Str) → ps ≢ [] → target_of (org ∷ ps) ≡ some (target org (join ps))
unfolding target_of
target_of_two org [] n = absurd (n refl)
target_of_two org (p ∷ ps) n = refl

-- With the organization in the path.
split-prefixed :
    (org repo : Str)
    → is_empty org ≡ false
    → has_slash org ≡ false
    → any is_empty (split repo) ≡ false
    → split_image_path (org ++ b'/' ∷ repo) ≡ some (target org repo)
unfolding split_image_path
split-prefixed org repo e h parts =
    ap (λ ps. if any is_empty ps then none else target_of ps) (split-append org repo h)
    ∙ ap (λ b. if b then none else target_of (org ∷ split repo))
        (ap (λ x. x || any is_empty (split repo)) e ∙ parts)
    ∙ target_of_two org (split repo) (split-not_empty repo)
    ∙ ap (λ r. some (target org r)) (join-split repo)

-- Of `library`, whose name is left out.
split-bare :
    (repo : Str)
    → has_slash repo ≡ false
    → any is_empty (split repo) ≡ false
    → split_image_path repo ≡ some (target library_slug repo)
unfolding split_image_path target_of
split-bare repo h parts =
    ap (λ b. if b then none else target_of (split repo)) parts ∙ ap target_of (split_one repo h)

-- The path that people see of an image is read back as its organization and its repository, where
-- the slug of the organization is not empty and has no slash and no part of the name of the
-- repository between slashes is empty; a repository of `library` has a name without a slash.
pub split_image_path-image_path :
    (org repo : Str)
    → is_empty org ≡ false
    → any (λ c. c == b'/') org ≡ false
    → any is_empty (split repo) ≡ false
    → (org ≢ library_slug) ⊎ (any (λ c. c == b'/') repo ≡ false)
    → split_image_path (image_path (some org) repo)
      ≡ some (record { org_slug = org; repo_name = repo })
unfolding image_path is_library
split_image_path-image_path org repo e h parts visible =
    if-cases (λ name. split_image_path name ≡ some (target org repo))
      (is_empty org || str_eq org library_slug)
      (λ l.
        let eq = str_eq→eq org library_slug (sym (ap (λ x. x || str_eq org library_slug) e) ∙ l) in
        elim visible [
          | inl n ↦ absurd (n eq)
          | inr bare ↦ split-bare repo bare parts ∙ ap (λ o. some (target o repo)) (sym eq)
        ])
      (λ _. split-prefixed org repo e h parts)
