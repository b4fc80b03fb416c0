-- ===== src/Signatures/Classify/Kinds.antt =====
-- What a cosign tag tells of a manifest.
use chicoree.Prelude.{
  arith, ◌≢◌, ap, ◌∙◌, or_true, Bool, ◌||◌, ◌&&◌, not, List, any, all, is_some, is_empty, ◌≡◌, refl,
  true, false, if-cases, Option, some, [], ◌∷◌, ◌++◌, Str, str, str_eq, includes,
}
use chicoree.Signatures.{
  other, ArtifactSubkind, provenance, spdx, cyclonedx, vuln, cosign_sign, custom, ArtifactFormat,
  oci_empty_config, cosign_simple_signing, dsse_envelope, in_toto_json, is_artifact_media_type,
  sigstore_bundle, dsse, annotation_bundle_predicate, annotation_bundle_content, is_sbom_media_type,
  Suffix, sig, att, cosign_artifact_tag, parse_cosign_tag, suffix_text,
}
use chicoree.Signatures.Classify.{
  kind_for_subkind, predicate_subkind, Classification, by_predicate, ArtifactDescriptor,
  is_notation, is_bundle, is_legacy_signature, is_statement, is_envelope, is_document, bundle_class,
  classify_artifact, either_text, layer_types, is_text, tag_of, has_suffix, looks_like_artifact,
}
use chicoree.Signatures.Tags.{IsSha256, parse_cosign_tag-artifact_tag}

-- A signature, an attestation or a bill of materials.
pub IsRecognised : Classification → Type 0
IsRecognised c = c.kind ≢ other

kind_for_subkind-known : (s : ArtifactSubkind) → kind_for_subkind s ≢ other
unfolding kind_for_subkind
kind_for_subkind-known provenance e = cc (e)
kind_for_subkind-known spdx e = cc (e)
kind_for_subkind-known cyclonedx e = cc (e)
kind_for_subkind-known vuln e = cc (e)
kind_for_subkind-known cosign_sign e = cc (e)
kind_for_subkind-known ArtifactSubkind.notation e = cc (e)
kind_for_subkind-known custom e = cc (e)

by_predicate-IsRecognised :
    (format : ArtifactFormat) (predicate_type : Option Str)
    → IsRecognised (by_predicate format predicate_type)
unfolding by_predicate IsRecognised
by_predicate-IsRecognised format predicate_type =
    kind_for_subkind-known (predicate_subkind predicate_type)

bundle_class-IsRecognised : (d : ArtifactDescriptor) → IsRecognised (bundle_class d)
unfolding bundle_class IsRecognised
bundle_class-IsRecognised d =
    if-cases IsRecognised
      (is_text (str "message-signature") (d.annotations annotation_bundle_content)) (λ _ e. cc (e))
      (λ _. by_predicate-IsRecognised sigstore_bundle (d.annotations annotation_bundle_predicate))

neither : (a b : Bool) → b ≡ true → (a || b) ≢ false
neither a b h k = ground (arith, h, k)

none_of : (a b c : Bool) → c ≡ true → (a || b || c) ≢ false
none_of a b c h k = ground (arith, h, k)

-- One of the three tests on the tag holds.
tag-tests :
    (d : ArtifactDescriptor) (digest : Str) (s : Suffix)
    → tag_of d.tag ≡ some (record { digest = digest; suffix = s })
    → is_legacy_signature d ≡ false
    → is_envelope d ≡ false
    → is_document d ≢ false
unfolding is_legacy_signature is_envelope is_document has_suffix suffix_text str_eq
tag-tests d digest sig e a b k =
    neither (includes (layer_types d) cosign_simple_signing) (has_suffix (str "sig") (tag_of d.tag))
      (rw e refl) a
tag-tests d digest att e a b k =
    none_of (includes (layer_types d) dsse_envelope) (includes (layer_types d) in_toto_json)
      (has_suffix (str "att") (tag_of d.tag)) (rw e refl) b
tag-tests d digest Suffix.sbom e a b k =
    neither (any is_sbom_media_type (layer_types d)) (has_suffix (str "sbom") (tag_of d.tag))
      (rw e refl) k

classify_artifact-IsRecognised :
    (d : ArtifactDescriptor) (digest : Str) (s : Suffix)
    → tag_of d.tag ≡ some (record { digest = digest; suffix = s })
    → IsRecognised (classify_artifact d)
unfolding classify_artifact IsRecognised
classify_artifact-IsRecognised d digest s tagged =
    if-cases IsRecognised (is_notation d) (λ _ e. cc (e))
      (λ _.
        if-cases IsRecognised (is_bundle d) (λ _. bundle_class-IsRecognised d)
          (λ _.
            if-cases IsRecognised (is_legacy_signature d) (λ _ e. cc (e))
              (λ a.
                if-cases IsRecognised (is_statement d) (λ _ e. cc (e))
                  (λ _.
                    if-cases IsRecognised (is_envelope d)
                      (λ _. by_predicate-IsRecognised dsse (
                        either_text (d.annotations (str "predicateType"))
                          (d.annotations annotation_bundle_predicate)))
                      (λ b.
                        if-cases IsRecognised (is_document d) (λ _ e. cc (e))
                          (λ c. absurd (tag-tests d digest s tagged a b c)))))))

any-append :
    (p : Str → Bool) (xs ys : List Str) (x : Str) → p x ≡ true → any p (xs ++ x ∷ ys) ≡ true
any-append p [] ys x h = ap (λ b. b || any p ys) h
any-append p (y ∷ xs) ys x h = ap (λ b. p y || b) (any-append p xs ys x h) ∙ or_true (p y)

second-true : (a b c d : Bool) → b ≡ true → (a || b || c || d) ≡ true
second-true a b c d h = ground (arith, h)

-- A manifest with the tag that cosign gives to an artifact of a sha256 digest, whatever else it
-- says, is classified as a signature, an attestation or a bill of materials; and a manifest with
-- such a tag among its tags is taken for an attached artifact.
pub cosign_artifact_tag-IsRecognised :
    (d : ArtifactDescriptor) (hex : Str) (s : Suffix) (has_subject : Bool)
    (ahead behind layers : List Str) (config : Option Str)
    → IsSha256 hex
    → d.tag ≡ some (cosign_artifact_tag (str "sha256:" ++ hex) s)
    → IsRecognised (classify_artifact d)
      × (looks_like_artifact has_subject
            (ahead ++ cosign_artifact_tag (str "sha256:" ++ hex) s ∷ behind)
            layers
            config
          ≡ true)
unfolding looks_like_artifact tag_of
cosign_artifact_tag-IsRecognised d hex s has_subject ahead behind layers config h e =
    let tag = cosign_artifact_tag (str "sha256:" ++ hex) s in
    let parsed = parse_cosign_tag-artifact_tag hex s h in
    let found =
      any-append (λ t. is_some (parse_cosign_tag t)) ahead behind tag (ap is_some parsed) in
    (
      classify_artifact-IsRecognised d (str "sha256:" ++ hex) s (ap tag_of e ∙ parsed),
      second-true has_subject (any (λ t. is_some (parse_cosign_tag t)) (ahead ++ tag ∷ behind))
          (is_text oci_empty_config config)
          (not (is_empty layers) && all is_artifact_media_type layers) found,
    )
