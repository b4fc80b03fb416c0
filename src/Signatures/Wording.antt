-- ===== src/Signatures/Wording.antt =====
-- What a signature covers, and the words for its status, from web/src/lib/signatures-shared.ts.
use chicoree.Prelude.{
  ℕ, ◌+◌, Bool, true, false, not, ◌&&◌, ◌||◌, Option, none, some, get_or, List, [], ◌∷◌, ◌++◌, any,
  take, ltb, ◌==◌, if◌then◌else◌, Str, str, str_eq, is_empty, trim, lower, contains, before_first,
  split_words,
}
use chicoree.Compare.Configs.{join_with}
use chicoree.Signatures.{
  ArtifactSubkind, provenance, spdx, cyclonedx, vuln, cosign_sign, custom, ArtifactFormat,
  cosign_legacy, sigstore_bundle, dsse, in_toto, raw, unknown, digest_hex,
}

-- A subject of a statement: its digest of SHA-256, if that is a string.
pub record Subject : Type 0 where
  pub name : Option Str
  pub sha256 : Option Str

unfoldable pub statement_covers_digest : List Subject → Str → Bool
unfolding str_eq lower digest_hex
statement_covers_digest subjects digest =
    let hex = lower (digest_hex digest) in
    any (λ s. str_eq (lower (get_or s.sha256 [])) hex) subjects

-- `lastIndexOf(c)`; `none` is -1.
last_index : ℕ → ℕ → Str → Option ℕ
last_index i c [] = none
last_index i c (d ∷ s) = elim (last_index (i + 1) c s) [
  | none ↦ if d == c then some i else none
  | some j ↦ some j
]

later : Option ℕ → Option ℕ → Bool
later none slash = false
later (some colon) none = true
later (some colon) (some slash) = ltb slash colon

-- `ref.slice(0, colon)`, if the colon is behind the last slash.
cut_at : Option ℕ → Option ℕ → Str → Str
unfolding later
cut_at slash none ref = ref
cut_at slash (some colon) ref = if later (some colon) slash then take colon ref else ref

without_tag : Str → Str
unfolding last_index cut_at
without_tag ref = cut_at (last_index 0 b'/' ref) (last_index 0 b':' ref) ref

-- The host of the registry goes, if the first of several parts is one.
without_host : List Str → List Str
unfolding contains str_eq
without_host [] = []
without_host (p ∷ ps) =
    if not (is_empty ps)
      && (contains (str ".") p || contains (str ":") p || str_eq p (str "localhost"))
    then ps
    else p ∷ ps

unfoldable pub reference_path : Str → Str
unfolding trim before_first without_tag split_words without_host join_with lower
reference_path reference = lower (
    join_with (str "/") (
      without_host
        (split_words (λ c. c == b'/') (without_tag (before_first b'@' (trim reference))))))

-- `referenceMatchesRepository`, for a reference that is given.
unfoldable pub reference_matches_repository : Str → List Str → Bool
unfolding reference_path str_eq lower
reference_matches_repository reference candidates =
    not (is_empty reference) && any (λ c. str_eq (lower c) (reference_path reference)) candidates

pub data SignatureStatus : Type 0 where
  verified untrusted invalid keyless : SignatureStatus

pub record SignatureCheck : Type 0 where
  pub status : SignatureStatus
  pub key_name : Option Str
  pub signer : Option Str
  pub identity : Option Str
  pub identity_name : Option Str
  pub chain_verified : Bool
  pub reason : Option Str

-- `text ? … : …`
if_text : Option Str → (Str → Str) → Str → Str
if_text none f otherwise = otherwise
if_text (some s) f otherwise = if is_empty s then otherwise else f s

verified_text : SignatureCheck → Str
unfolding if_text
verified_text check =
    let key = get_or check.key_name (str "(removed)") in
    if_text check.identity_name
      (λ name.
        str "verified by identity "
        ++ name
        ++ if_text check.identity (λ i. str " (" ++ i ++ str ")") [])
      (if_text check.signer (λ signer. str "verified by " ++ signer ++ str "'s key " ++ key)
        (str "verified by key " ++ key))

keyless_text : SignatureCheck → Str
unfolding if_text
keyless_text check =
    let who = if_text check.identity (λ i. str "keyless (" ++ i ++ str ")") (str "keyless") in
    if check.chain_verified
    then who ++ str ", verified by Sigstore, identity not trusted here"
    else if_text check.reason (λ r. who ++ str ", not verified: " ++ r)
        (who ++ str ", not verified")

status_text : SignatureCheck → SignatureStatus → Str
unfolding verified_text keyless_text if_text
status_text check verified = verified_text check
status_text check untrusted =
    if_text check.reason (λ r. str "unverified: " ++ r) (str "unverified: no trusted key")
status_text check invalid = if_text check.reason (λ r. str "invalid: " ++ r) (str "invalid")
status_text check keyless = keyless_text check

unfoldable pub describe_signature_status : SignatureCheck → Str
unfolding status_text
describe_signature_status check = status_text check check.status

unfoldable pub signature_format_label : ArtifactFormat → Str
signature_format_label cosign_legacy = str "cosign signature"
signature_format_label sigstore_bundle = str "Sigstore bundle"
signature_format_label dsse = str "DSSE envelope"
signature_format_label in_toto = str "unknown format"
signature_format_label ArtifactFormat.notation = str "Notation signature"
signature_format_label raw = str "raw document"
signature_format_label unknown = str "unknown format"

unfoldable pub predicate_label : Option Str → Option ArtifactSubkind → Str
unfolding contains
predicate_label predicate_type none = get_or predicate_type (str "custom attestation")
predicate_label predicate_type (some provenance) =
    if contains (str "v1") (get_or predicate_type [])
    then str "SLSA provenance v1"
    else str "SLSA provenance"
predicate_label predicate_type (some spdx) = str "SPDX SBOM"
predicate_label predicate_type (some cyclonedx) = str "CycloneDX SBOM"
predicate_label predicate_type (some vuln) = str "vulnerability attestation"
predicate_label predicate_type (some cosign_sign) = str "cosign signature"
predicate_label predicate_type (some ArtifactSubkind.notation) =
    get_or predicate_type (str "custom attestation")
predicate_label predicate_type (some custom) = get_or predicate_type (str "custom attestation")

abbrev pub signature_block_reason : Str
signature_block_reason = str "no signature from a trusted key or identity (signature policy)"

unfoldable pub is_signature_block_reason : Option Str → Bool
unfolding contains
is_signature_block_reason none = false
is_signature_block_reason (some reason) =
    not (is_empty reason) && contains (str "(signature policy)") reason
