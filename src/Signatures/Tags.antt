-- ===== src/Signatures/Tags.antt =====
-- The tags of cosign, printed and read.
use mathlib.Core.Option.{some-injective}
use chicoree.Prelude.{
  &&-right, ==_iff, ◌≡◌, refl, sym, ap, ◌∙◌, true, ◌&&◌, &&-left, Bool-cases, inl, inr, if-cases,
  Option, none, some, [], ◌∷◌, ◌++◌, all, take, drop, take-append-drop, length, ◌==◌, Str, str,
  str_eq, str_eq→eq, after_prefix, arith,
}
use chicoree.Signatures.{
  Suffix, sig, att, suffix_text, digest_hex, after_colon, cosign_artifact_tag, is_hex, CosignTag,
  parse_suffix, tag_with, parse_hex, parse_cosign_tag,
}

take-length-append : (xs ys : Str) → take (length xs) (xs ++ ys) ≡ xs
take-length-append [] ys = refl
take-length-append (x ∷ xs) ys = ap (λ t. x ∷ t) (take-length-append xs ys)

drop-length-append : (xs ys : Str) → drop (length xs) (xs ++ ys) ≡ ys
drop-length-append [] ys = refl
drop-length-append (x ∷ xs) ys = drop-length-append xs ys

parse_suffix-text : (s : Suffix) → parse_suffix (b'.' ∷ suffix_text s) ≡ some s
unfolding parse_suffix suffix_text str_eq
parse_suffix-text sig = refl
parse_suffix-text att = refl
parse_suffix-text Suffix.sbom = refl

-- A digest of SHA-256 as the registry writes it.
abbrev pub IsSha256 : Str → Type 0
IsSha256 hex = (length hex ≡ 64) × (all is_hex hex ≡ true)

abbrev tag_for : Str → Suffix → CosignTag
tag_for hex s = record { digest = str "sha256:" ++ hex; suffix = s }

tag_with-IsSha256 :
    (hex : Str) (s : Suffix)
    → IsSha256 hex
    → tag_with hex (some s) ≡ some (record { digest = str "sha256:" ++ hex; suffix = s })
unfolding tag_with
tag_with-IsSha256 hex s h = rw (h.0, h.1) refl

-- The tag that cosign gives to an artifact of an image is read back, as the digest of the image and
-- the suffix, for a digest of 64 hexadecimal digits.
pub parse_cosign_tag-artifact_tag :
    (hex : Str) (s : Suffix)
    → IsSha256 hex
    → parse_cosign_tag (cosign_artifact_tag (str "sha256:" ++ hex) s)
      ≡ some (record { digest = str "sha256:" ++ hex; suffix = s })
unfolding parse_cosign_tag cosign_artifact_tag parse_hex tag_with digest_hex after_colon
    after_prefix
parse_cosign_tag-artifact_tag hex s h =
    let end = b'.' ∷ suffix_text s in
    let first = ap (λ n. take n (hex ++ end)) (sym h.0) ∙ take-length-append hex end in
    let behind = ap (λ n. drop n (hex ++ end)) (sym h.0) ∙ drop-length-append hex end in
    let both =
      ap (λ x. tag_with x (parse_suffix (drop 64 (hex ++ end)))) first
      ∙ ap (λ x. tag_with hex (parse_suffix x)) behind
      ∙ ap (tag_with hex) (parse_suffix-text s) in
    both ∙ tag_with-IsSha256 hex s h

after_prefix-eq : (p s : Str) {r : Str} → after_prefix p s ≡ some r → s ≡ p ++ r
unfolding after_prefix
after_prefix-eq [] s {r} e = some-injective s r e
after_prefix-eq (c ∷ p) [] e = cc (e)
after_prefix-eq (c ∷ p) (d ∷ s) {r} e = ground (arith, e, after_prefix-eq p s {r = r})

parse_suffix-eq : (s : Str) {x : Suffix} → parse_suffix s ≡ some x → s ≡ b'.' ∷ suffix_text x
unfolding parse_suffix suffix_text
parse_suffix-eq s {x} e =
    let P = λ (o : Option Suffix). o ≡ some x → s ≡ b'.' ∷ suffix_text x in
    if-cases P (str_eq s (str ".sig"))
      (λ h q. str_eq→eq s (str ".sig") h ∙ ap (λ y. b'.' ∷ suffix_text y) (some-injective sig x q))
      (λ _.
        if-cases P (str_eq s (str ".att"))
          (λ h q.
            str_eq→eq s (str ".att") h ∙ ap (λ y. b'.' ∷ suffix_text y) (some-injective att x q))
          (λ _.
            if-cases P (str_eq s (str ".sbom"))
              (λ h q.
                str_eq→eq s (str ".sbom") h
                ∙ ap (λ y. b'.' ∷ suffix_text y) (some-injective Suffix.sbom x q))
              (λ _ q. cc (q))))
      e

-- What is read is what `hex` and the suffix print.
tag_with-eq :
    (hex : Str) (o : Option Suffix) {c : CosignTag}
    → tag_with hex o ≡ some c
    → (o ≡ some c.suffix) × (c.digest ≡ str "sha256:" ++ hex) × IsSha256 hex
unfolding tag_with
tag_with-eq hex none e = cc (e)
tag_with-eq hex (some s) {c} e = elim (Bool-cases (length hex == 64 && all is_hex hex)) [
  | inl h ↦
      let same = some-injective (tag_for hex s) c (rw (h) at e) in
      (
        ap (λ (x : CosignTag). some x.suffix) same,
        ap (λ (x : CosignTag). x.digest) (sym same),
        (
          (==_iff (length hex) 64).0 (&&-left (length hex == 64) (all is_hex hex) h),
          &&-right (length hex == 64) (all is_hex hex) h,
        ),
      )
  | inr h ↦ cc (rw (h) at e)
]

parse_hex-eq :
    (o : Option Str) {c : CosignTag}
    → parse_hex o ≡ some c
    → (s : Str) × (o ≡ some (s ++ b'.' ∷ suffix_text c.suffix))
      × (c.digest ≡ str "sha256:" ++ s)
      × IsSha256 s
unfolding parse_hex
parse_hex-eq none e = cc (e)
parse_hex-eq (some s) {c} e =
    let parts = tag_with-eq (take 64 s) (parse_suffix (drop 64 s)) e in
    (
      take 64 s,
      ap some (
          sym (take-append-drop 64 s)
          ∙ ap (λ r. take 64 s ++ r) (parse_suffix-eq (drop 64 s) parts.0)),
      parts.1,
      parts.2,
    )

-- A tag that is read as one of cosign is the tag that cosign gives for the digest and the suffix
-- that were read.
cosign_artifact_tag-parse :
    (tag : Str) (c : CosignTag)
    → parse_cosign_tag tag ≡ some c
    → cosign_artifact_tag c.digest c.suffix ≡ tag
unfolding parse_cosign_tag cosign_artifact_tag digest_hex after_colon
cosign_artifact_tag-parse tag c e =
    let parts = parse_hex-eq (after_prefix (str "sha256-") tag) e in
    rw (parts.2) (sym (after_prefix-eq (str "sha256-") tag parts.1))
