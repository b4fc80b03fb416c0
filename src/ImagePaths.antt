-- ===== src/ImagePaths.antt =====
-- web/src/lib/library-shared.ts: how people name an image, without the organization `library`.
-- `===` with a missing slug is a test on the option.
pub mod Splitting
use chicoree.Prelude.{
  ℕ, Bool, true, false, not, ◌&&◌, ◌||◌, Option, none, some, List, [], ◌∷◌, ◌++◌, any, drop, length,
  ◌==◌, if◌then◌else◌, Str, str, str_eq, is_empty, starts_with, is_some,
}

abbrev pub library_slug : Str
library_slug = str "library"

unfoldable pub is_library : Option Str → Bool
unfolding str_eq
is_library none = false
is_library (some slug) = str_eq slug library_slug

unfoldable pub image_path : Option Str → Str → Str
unfolding is_library
image_path none repo = repo
image_path (some slug) repo =
    if is_empty slug || is_library (some slug) then repo else slug ++ b'/' ∷ repo

-- The optional reference is a tag or a digest.
unfoldable pub image_reference : (host : Str) → Option Str → (repo : Str) → Option Str → Str
unfolding image_path starts_with
image_reference host slug repo none = host ++ b'/' ∷ image_path slug repo
image_reference host slug repo (some ref) =
    let base = host ++ b'/' ∷ image_path slug repo in
    if is_empty ref
    then base
    else if starts_with (str "sha256:") ref
    then base ++ b'@' ∷ ref
    else base ++ b':' ∷ ref

unfoldable pub display_path : Str → Str
unfolding starts_with
display_path label = if starts_with (str "library/") label then drop 8 label else label

-- A code unit before the first piece.
pub onto_first : ℕ → List Str → List Str
onto_first c [] = (c ∷ []) ∷ []
onto_first c (p ∷ ps) = (c ∷ p) ∷ ps

-- `name.split("/")`
unfoldable pub split : Str → List Str
unfolding onto_first
split [] = [] ∷ []
split (c ∷ s) = let rest = split s in if c == b'/' then [] ∷ rest else onto_first c rest

-- `parts.join("/")`
unfoldable pub join : List Str → Str
join [] = []
join (p ∷ []) = p
join (p ∷ q ∷ ps) = p ++ b'/' ∷ join (q ∷ ps)

pub record Target : Type 0 where
  pub org_slug : Str
  pub repo_name : Str

target_of : List Str → Option Target
unfolding join
target_of [] = none
target_of (p ∷ []) = some (record { org_slug = library_slug; repo_name = p })
target_of (p ∷ q ∷ ps) = some (record { org_slug = p; repo_name = join (q ∷ ps) })

unfoldable pub split_image_path : Str → Option Target
unfolding split target_of
split_image_path name =
    let parts = split name in if any is_empty parts then none else target_of parts
