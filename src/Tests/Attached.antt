-- ===== src/Tests/Attached.antt =====
-- Artifacts that are attached to an image.
use chicoree.Prelude.{
  false, ◌≡◌, refl, true, false, none, some, [], ◌∷◌, ◌++◌, Str, str, str_eq, is_space, trim, lower,
  lower_code, contains, before_first, split_words, starts_with, after_prefix,
}
use chicoree.Compare.Configs.{join_with}
use chicoree.Signatures.{Suffix, sig, att, CosignTag, is_hex, cosign_artifact_tag, parse_cosign_tag}
use chicoree.Signatures.Classify.{ArtifactDescriptor, classify_artifact, looks_like_artifact}
use chicoree.Signatures.Tags.{IsSha256, parse_cosign_tag-artifact_tag}
use chicoree.Signatures.Classify.Kinds.{IsRecognised, cosign_artifact_tag-IsRecognised}
use chicoree.Signatures.Wording.{reference_path, is_signature_block_reason, signature_block_reason}

abbrev hex : Str
hex = str "e3b0c44298fc1c149afbf4c8996fb92427ae41e4649b934ca495991b7852b855"

hex-IsSha256 : IsSha256 hex
unfolding is_hex
hex-IsSha256 = (refl, refl)

parse_cosign_tag-artifact_tag_example :
    parse_cosign_tag (cosign_artifact_tag (str "sha256:" ++ hex) att)
    ≡ some (record { digest = str "sha256:" ++ hex; suffix = att })
parse_cosign_tag-artifact_tag_example = parse_cosign_tag-artifact_tag hex att hex-IsSha256

abbrev read_tag : CosignTag
read_tag = record { digest = str "sha256:" ++ hex; suffix = sig }

-- A manifest of an image, but for its tag.
abbrev tagged : ArtifactDescriptor
tagged = record {
  media_type = str "application/vnd.oci.image.manifest.v1+json";
  artifact_type = none;
  config_media_type = none;
  layer_media_types = str "application/vnd.oci.image.layer.v1.tar+gzip" ∷ [];
  annotations = λ key. none;
  tag = some (cosign_artifact_tag (str "sha256:" ++ hex) Suffix.sbom);
  has_subject = false;
}

cosign_artifact_tag-IsRecognised_example :
    IsRecognised (classify_artifact tagged)
    × (looks_like_artifact false
          (str "latest" ∷ cosign_artifact_tag (str "sha256:" ++ hex) Suffix.sbom ∷ [])
          tagged.layer_media_types
          none
        ≡ true)
cosign_artifact_tag-IsRecognised_example =
    cosign_artifact_tag-IsRecognised tagged hex Suffix.sbom false (str "latest" ∷ []) []
      tagged.layer_media_types none hex-IsSha256 refl

host_and_tag :
    reference_path (str "registry.example.com:5000/Acme/App:v1@sha256:ab") ≡ str "acme/app"
unfolding reference_path is_space trim lower lower_code contains before_first split_words join_with
    str_eq
host_and_tag = refl

policy_reason : is_signature_block_reason (some signature_block_reason) ≡ true
unfolding is_signature_block_reason contains starts_with after_prefix
policy_reason = refl
