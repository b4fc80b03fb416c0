-- ===== src/Tests/Names.antt =====
-- Paths of images, in a proxy cache and in the library.
use chicoree.Prelude.{◌≡◌, ◌≢◌, refl, some, none, inl, str, str_eq, starts_with}
use chicoree.ImagePaths.{
  library_slug, image_path, image_reference, display_path, split_image_path, split,
}
use chicoree.ImagePaths.Splitting.{split_image_path-image_path}

test_reference :
    image_reference
      (str "registry.example.com")
      (some (str "library"))
      (str "nginx")
      (some (str "1.27"))
    ≡ str "registry.example.com/nginx:1.27"
unfolding image_reference image_path starts_with str_eq
test_reference = refl

test_display : display_path (str "library/nginx") ≡ str "nginx"
unfolding display_path starts_with
test_display = refl

test_empty_piece : split_image_path (str "acme//app") ≡ none
unfolding split_image_path split
test_empty_piece = refl

not_library : str "dockerhub" ≢ library_slug
not_library e = cc (e)

split_image_path-image_path_example :
    split_image_path (image_path (some (str "dockerhub")) (str "bitnami/redis"))
    ≡ some (record { org_slug = str "dockerhub"; repo_name = str "bitnami/redis" })
unfolding split
split_image_path-image_path_example =
    split_image_path-image_path (str "dockerhub") (str "bitnami/redis") refl refl refl
      (inl not_library)
