-- ===== src/Signatures/Classify.antt =====
-- What an attached manifest is, from web/src/lib/signatures-shared.ts.
pub mod Kinds
use chicoree.Prelude.{
  ℕ, ◌+◌, Bool, true, false, not, ◌&&◌, ◌||◌, Option, none, some, get_or, List, [], ◌∷◌, ◌++◌, map,
  find, any, all, is_some, take, drop, length, leb, ◌==◌, if◌then◌else◌, Str, str, str_eq, includes,
  is_empty, trim, lower, after_prefix, starts_with, contains, before_first,
}
use chicoree.Signatures.{
  ArtifactKind, signature, attestation, other, ArtifactSubkind, provenance, spdx, cyclonedx, vuln,
  cosign_sign, custom, ArtifactFormat, cosign_legacy, sigstore_bundle, dsse, in_toto, raw, unknown,
  cosign_simple_signing, dsse_envelope, in_toto_json, buildkit_attestation_manifest,
  sigstore_bundle_prefix, oci_empty_config, notation_artifact_type, notation_jws, notation_cose,
  annotation_bundle_content, annotation_bundle_predicate, bare, is_sbom_media_type,
  is_artifact_media_type, CosignTag, suffix_text, parse_cosign_tag,
}

pub record ArtifactDescriptor : Type 0 where
  pub media_type : Str
  pub artifact_type : Option Str
  pub config_media_type : Option Str
  pub layer_media_types : List Str
  pub annotations : Str → Option Str
  pub tag : Option Str
  pub has_subject : Bool

pub record Classification : Type 0 where
  pub kind : ArtifactKind
  pub subkind : Option ArtifactSubkind
  pub format : ArtifactFormat
  pub predicate_type : Option Str

-- The tests of `predicateSubkind` in their order.
subkind_of : Str → ArtifactSubkind
unfolding contains
subkind_of t =
    if is_empty t
    then custom
    else if contains (str "sigstore.dev/cosign/sign") t
    then cosign_sign
    else if contains (str "slsa.dev/provenance") t || contains (str "in-toto.io/provenance") t
    then provenance
    else if contains (str "spdx") t
    then spdx
    else if contains (str "cyclonedx") t
    then cyclonedx
    else if contains (str "vuln") t
    then vuln
    else custom

unfoldable pub predicate_subkind : Option Str → ArtifactSubkind
unfolding subkind_of lower
predicate_subkind predicate_type = subkind_of (lower (get_or predicate_type []))

unfoldable pub kind_for_subkind : ArtifactSubkind → ArtifactKind
kind_for_subkind provenance = attestation
kind_for_subkind spdx = ArtifactKind.sbom
kind_for_subkind cyclonedx = ArtifactKind.sbom
kind_for_subkind vuln = attestation
kind_for_subkind cosign_sign = signature
kind_for_subkind ArtifactSubkind.notation = signature
kind_for_subkind custom = attestation

abbrev classified :
    ArtifactKind → Option ArtifactSubkind → ArtifactFormat → Option Str → Classification
classified kind subkind format predicate_type = record {
  kind = kind;
  subkind = subkind;
  format = format;
  predicate_type = predicate_type;
}

-- `predicateType ? predicateSubkind(predicateType) : "custom"`
by_predicate : ArtifactFormat → Option Str → Classification
unfolding predicate_subkind kind_for_subkind
by_predicate format predicate_type =
    let subkind = predicate_subkind predicate_type in
    classified (kind_for_subkind subkind) (some subkind) format predicate_type

-- `suffix === …` on the suffix of a cosign tag.
has_suffix : Str → Option CosignTag → Bool
unfolding suffix_text str_eq
has_suffix text none = false
has_suffix text (some t) = str_eq (suffix_text t.suffix) text

is_text : Str → Option Str → Bool
unfolding str_eq
is_text text none = false
is_text text (some s) = str_eq s text

-- `a ?? b`
either_text : Option Str → Option Str → Option Str
either_text none b = b
either_text (some a) b = some a

tag_of : Option Str → Option CosignTag
unfolding parse_cosign_tag
tag_of none = none
tag_of (some tag) = parse_cosign_tag tag

sbom_subkind : Str → Option ArtifactSubkind
unfolding contains
sbom_subkind mt =
    if contains (str "spdx") mt
    then some spdx
    else if contains (str "cyclonedx") mt
    then some cyclonedx
    else none

module _ (d : ArtifactDescriptor) where
  layer_types : List Str
  unfolding bare
  layer_types = map bare d.layer_media_types

  is_notation : Bool
  unfolding layer_types is_text includes
  is_notation =
      is_text notation_artifact_type d.artifact_type
      || includes layer_types notation_jws
      || includes layer_types notation_cose

  is_bundle : Bool
  unfolding layer_types starts_with
  is_bundle =
      any (starts_with sigstore_bundle_prefix) layer_types
      || starts_with sigstore_bundle_prefix (get_or d.artifact_type [])

  is_legacy_signature : Bool
  unfolding layer_types includes tag_of has_suffix
  is_legacy_signature =
      includes layer_types cosign_simple_signing || has_suffix (str "sig") (tag_of d.tag)

  is_statement : Bool
  unfolding is_text
  is_statement =
      is_text buildkit_attestation_manifest d.artifact_type
      || is_text (str "attestation-manifest") (d.annotations (str "vnd.docker.reference.type"))

  is_envelope : Bool
  unfolding layer_types includes tag_of has_suffix
  is_envelope =
      includes layer_types dsse_envelope
      || includes layer_types in_toto_json
      || has_suffix (str "att") (tag_of d.tag)

  is_document : Bool
  unfolding layer_types is_sbom_media_type tag_of has_suffix
  is_document = any is_sbom_media_type layer_types || has_suffix (str "sbom") (tag_of d.tag)

  bundle_class : Classification
  unfolding is_text by_predicate
  bundle_class =
      if is_text (str "message-signature") (d.annotations annotation_bundle_content)
      then classified signature (some cosign_sign) sigstore_bundle none
      else by_predicate sigstore_bundle (d.annotations annotation_bundle_predicate)

  unfoldable pub classify_artifact : Classification
  unfolding is_notation is_bundle bundle_class is_legacy_signature is_statement is_envelope
      by_predicate either_text is_document sbom_subkind layer_types is_sbom_media_type
  classify_artifact =
      if is_notation
      then classified signature (some ArtifactSubkind.notation) ArtifactFormat.notation none
      else if is_bundle
      then bundle_class
      else if is_legacy_signature
      then classified signature (some cosign_sign) cosign_legacy none
      else if is_statement
      then classified attestation (some custom) in_toto none
      else if is_envelope
      then by_predicate dsse (
          either_text (d.annotations (str "predicateType"))
            (d.annotations annotation_bundle_predicate))
      else if is_document
      then classified ArtifactKind.sbom
          (sbom_subkind (get_or (find is_sbom_media_type layer_types) [])) raw none
      else classified other none unknown none

-- Whether a manifest is an attached artifact, which the signature policy never blocks.
unfoldable pub looks_like_artifact :
    (has_subject : Bool) (tags layer_media_types : List Str) (config_media_type : Option Str) → Bool
unfolding parse_cosign_tag is_text is_artifact_media_type
looks_like_artifact has_subject tags layer_media_types config_media_type =
    has_subject
    || any (λ t. is_some (parse_cosign_tag t)) tags
    || is_text oci_empty_config config_media_type
    || (not (is_empty layer_media_types) && all is_artifact_media_type layer_media_types)
