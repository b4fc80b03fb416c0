-- ===== src/Signatures.antt =====
-- web/src/lib/signatures-shared.ts: what an attached manifest is, by its media types, its tag and its
-- annotations.
pub mod Tags
pub mod Classify
pub mod Wording
use chicoree.Prelude.{
  ℕ, ◌+◌, Bool, true, false, not, ◌&&◌, ◌||◌, Option, none, some, get_or, List, [], ◌∷◌, ◌++◌, map,
  find, any, all, is_some, take, drop, length, leb, ◌==◌, if◌then◌else◌, Str, str, str_eq, includes,
  is_empty, trim, lower, after_prefix, starts_with, contains, before_first,
}

pub data ArtifactKind : Type 0 where
  signature attestation sbom other : ArtifactKind

pub data ArtifactSubkind : Type 0 where
  provenance spdx cyclonedx vuln cosign_sign notation custom : ArtifactSubkind

pub data ArtifactFormat : Type 0 where
  cosign_legacy sigstore_bundle dsse in_toto notation raw unknown : ArtifactFormat

abbrev pub cosign_simple_signing : Str
cosign_simple_signing = str "application/vnd.dev.cosign.simplesigning.v1+json"

abbrev pub dsse_envelope : Str
dsse_envelope = str "application/vnd.dsse.envelope.v1+json"

abbrev pub in_toto_json : Str
in_toto_json = str "application/vnd.in-toto+json"

abbrev pub buildkit_attestation_manifest : Str
buildkit_attestation_manifest = str "application/vnd.docker.attestation.manifest.v1+json"

abbrev pub sigstore_bundle_prefix : Str
sigstore_bundle_prefix = str "application/vnd.dev.sigstore.bundle"

abbrev pub oci_empty_config : Str
oci_empty_config = str "application/vnd.oci.empty.v1+json"

abbrev pub notation_artifact_type : Str
notation_artifact_type = str "application/vnd.cncf.notary.signature"

abbrev pub notation_jws : Str
notation_jws = str "application/jose+json"

abbrev pub notation_cose : Str
notation_cose = str "application/cose"

abbrev pub sbom_media_types : List Str
sbom_media_types =
    str "application/spdx+json"
    ∷ str "application/vnd.cyclonedx+json"
    ∷ str "text/spdx+json"
    ∷ str "text/spdx"
    ∷ str "application/vnd.syft+json"
    ∷ str "application/vnd.cyclonedx+xml"
    ∷ str "text/spdx+xml"
    ∷ []

abbrev pub annotation_bundle_content : Str
annotation_bundle_content = str "dev.sigstore.bundle.content"

abbrev pub annotation_bundle_predicate : Str
annotation_bundle_predicate = str "dev.sigstore.bundle.predicateType"

-- `mediaType.split(";")[0].trim()`
unfoldable pub bare : Str → Str
unfolding before_first trim
bare media_type = trim (before_first b';' media_type)

unfoldable pub is_sbom_media_type : Str → Bool
unfolding bare includes
is_sbom_media_type media_type =
    not (is_empty media_type) && includes sbom_media_types (bare media_type)

unfoldable pub is_artifact_media_type : Str → Bool
unfolding bare str_eq starts_with is_sbom_media_type
is_artifact_media_type media_type =
    let mt = bare media_type in
    not (is_empty media_type)
    && (str_eq mt cosign_simple_signing
        || str_eq mt dsse_envelope
        || str_eq mt in_toto_json
        || str_eq mt notation_jws
        || str_eq mt notation_cose
        || starts_with sigstore_bundle_prefix mt
        || is_sbom_media_type mt)

-- What is behind the first colon, or all of it.
after_colon : Str → Option Str
after_colon [] = none
after_colon (c ∷ s) = let rest = after_colon s in if c == b':' then some s else rest

unfoldable pub digest_hex : Str → Str
unfolding after_colon
digest_hex digest = get_or (after_colon digest) digest

pub data Suffix : Type 0 where
  sig att sbom : Suffix

unfoldable pub suffix_text : Suffix → Str
suffix_text sig = str "sig"
suffix_text att = str "att"
suffix_text Suffix.sbom = str "sbom"

unfoldable pub cosign_artifact_tag : Str → Suffix → Str
unfolding digest_hex suffix_text
cosign_artifact_tag digest suffix = str "sha256-" ++ digest_hex digest ++ b'.' ∷ suffix_text suffix

-- `[a-f0-9]`
unfoldable pub is_hex : ℕ → Bool
is_hex c = (leb b'a' c && leb c b'f') || (leb b'0' c && leb c b'9')

pub record CosignTag : Type 0 where
  pub digest : Str
  pub suffix : Suffix

-- `\.(sig|att|sbom)$`
parse_suffix : Str → Option Suffix
unfolding str_eq
parse_suffix s =
    if str_eq s (str ".sig")
    then some sig
    else if str_eq s (str ".att")
    then some att
    else if str_eq s (str ".sbom")
    then some Suffix.sbom
    else none

tag_with : Str → Option Suffix → Option CosignTag
tag_with hex none = none
tag_with hex (some suffix) =
    if length hex == 64 && all is_hex hex
    then some (record { digest = str "sha256:" ++ hex; suffix = suffix })
    else none

-- Behind `sha256-`.
parse_hex : Option Str → Option CosignTag
unfolding parse_suffix tag_with is_hex
parse_hex none = none
parse_hex (some s) = tag_with (take 64 s) (parse_suffix (drop 64 s))

-- `parseCosignTag`, for a tag that is given; the empty one does not match either.
unfoldable pub parse_cosign_tag : Str → Option CosignTag
unfolding parse_hex after_prefix
parse_cosign_tag tag = parse_hex (after_prefix (str "sha256-") tag)
