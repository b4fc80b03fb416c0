-- ===== src/Quota.antt =====
-- web/src/lib/quota-enforce-shared.ts: the picture of the repositories, and what the planner reads
-- of it. A time is its number of milliseconds; ids of repositories are keys of their table, so the
-- `Map` by id is a search. A map of sets is the list of its pairs.
pub mod Removal
pub mod Pruning
use chicoree.Prelude.{
  ℕ, ◌+◌, ◌-◌, Bool, true, false, not, ◌&&◌, Option, none, some, List, [], ◌∷◌, ◌++◌, ltb, get_or,
  is_some, if◌then◌else◌, Str, str_eq, includes, is_empty, filter, find, any,
}
use chicoree.TagRules.{TagRule, tag_flags}

pub record Blob : Type 0 where
  pub digest : Str
  pub size : ℕ

pub record ScopeManifest : Type 0 where
  pub digest : Str
  pub pushed_at : ℕ
  pub subject_digest : Option Str
  pub blobs : List Blob
  pub children : List Str

pub record ScopeTag : Type 0 where
  pub name : Str
  pub digest : Str
  pub pushed_at : ℕ

pub record ScopeRepository : Type 0 where
  pub id : Str
  pub path : Str
  pub manifests : List ScopeManifest
  pub tags : List ScopeTag
  pub rules : List TagRule

pub data Kind : Type 0 where
  tag manifest : Kind

-- The values that the sentence of a reason quotes.
pub data PruneReason : Type 0 where
  attached_to variant_of last_tag : Str → PruneReason
  untagged_since pushed : ℕ → PruneReason

pub record PruneStep : Type 0 where
  pub repository_id : Str
  pub repository : Str
  pub kind : Kind
  pub ref : Str
  pub reason : PruneReason

pub record PrunePlan : Type 0 where
  pub steps : List PruneStep
  pub before_bytes : ℕ
  pub after_bytes : ℕ
  pub unmet : Bool

-- A `Map` from digests to numbers, in the order of insertion.
pub data Entry : Type 0 where
  entry : (key : Str) (value : ℕ) → Entry

unfoldable pub get : List Entry → Str → Option ℕ
get [] k = none
get (entry key value ∷ m) k = let rest = get m k in if str_eq key k then some value else rest

unfoldable pub set : List Entry → Str → ℕ → List Entry
set [] k v = entry k v ∷ []
set (entry key value ∷ m) k v =
    let rest = set m k v in if str_eq key k then entry key v ∷ m else entry key value ∷ rest

-- The variables of the planner.
pub record State : Type 0 where
  pub live : List (Str × Str)
  pub blob_refs : List Entry
  pub removed_tags : List (Str × Str)
  pub steps : List PruneStep

abbrev pub has_pair : List (Str × Str) → Str → Str → Bool
has_pair pairs a b = any (λ p. str_eq p.0 a && str_eq p.1 b) pairs

abbrev pub is_live : State → Str → Str → Bool
is_live st repo_id digest = has_pair st.live repo_id digest

-- The loops that fill `live`, `blobSize` and `blobRefs`.
live_of : ScopeRepository → List ScopeManifest → List (Str × Str)
live_of r [] = []
live_of r (m ∷ ms) = (r.id, m.digest) ∷ live_of r ms

unfoldable pub all_live : List ScopeRepository → List (Str × Str)
unfolding live_of
all_live [] = []
all_live (r ∷ rs) = live_of r r.manifests ++ all_live rs

all_blobs_of : List ScopeManifest → List Blob
all_blobs_of [] = []
all_blobs_of (m ∷ ms) = m.blobs ++ all_blobs_of ms

unfoldable pub all_blobs : List ScopeRepository → List Blob
unfolding all_blobs_of
all_blobs [] = []
all_blobs (r ∷ rs) = all_blobs_of r.manifests ++ all_blobs rs

sizes_from : List Entry → List Blob → List Entry
unfolding set
sizes_from sizes [] = sizes
sizes_from sizes (b ∷ bs) = sizes_from (set sizes b.digest b.size) bs

unfoldable pub blob_size : List ScopeRepository → List Entry
unfolding sizes_from
blob_size repos = sizes_from [] (all_blobs repos)

refs_from : List Entry → List Blob → List Entry
unfolding get set
refs_from refs [] = refs
refs_from refs (b ∷ bs) = refs_from (set refs b.digest (get_or (get refs b.digest) 0 + 1)) bs

-- A count falls to 0 where the program's could fall below; both are not above 0, and no count is
-- raised again.
unfoldable pub release_blobs : List Entry → List Blob → List Entry
unfolding get set
release_blobs refs [] = refs
release_blobs refs (b ∷ bs) =
    release_blobs (set refs b.digest (get_or (get refs b.digest) 1 - 1)) bs

-- `usage()`, for the sizes of the blobs.
unfoldable pub usage_of : List Entry → List Entry → ℕ
unfolding get
usage_of sizes [] = 0
usage_of sizes (entry digest n ∷ refs) =
    (if ltb 0 n then get_or (get sizes digest) 0 else 0) + usage_of sizes refs

unfoldable pub initial : List ScopeRepository → State
unfolding refs_from all_live all_blobs
initial repos = record {
  live = all_live repos;
  blob_refs = refs_from [] (all_blobs repos);
  removed_tags = [];
  steps = [];
}

unfoldable pub has_subject : Str → Option Str → Bool
has_subject digest none = false
has_subject digest (some s) = str_eq s digest

abbrev pub has_protected : ScopeRepository → List ScopeTag → Bool
has_protected repo tags = any (λ t. is_some (tag_flags repo.rules t.name).protected) tags

module _ (repos : List ScopeRepository) where
  unfoldable pub usage : State → ℕ
  unfolding blob_size usage_of
  usage st = usage_of (blob_size repos) st.blob_refs

  abbrev pub by_repo : Str → Option ScopeRepository
  by_repo repo_id = find (λ r. str_eq r.id repo_id) repos

  abbrev pub manifests_by_id : Str → List ScopeManifest
  manifests_by_id repo_id = elim (by_repo repo_id) [ none ↦ [] | some r ↦ r.manifests ]

  abbrev pub tags_by_id : Str → List ScopeTag
  tags_by_id repo_id = elim (by_repo repo_id) [ none ↦ [] | some r ↦ r.tags ]

  unfoldable pub manifest_of : Str → Str → Option ScopeManifest
  manifest_of repo_id digest = find (λ m. str_eq m.digest digest) (manifests_by_id repo_id)

  unfoldable pub tags_of : State → Str → Str → List ScopeTag
  tags_of st repo_id digest =
      filter (λ t. str_eq t.digest digest && not (has_pair st.removed_tags repo_id t.name))
        (tags_by_id repo_id)

  unfoldable pub live_parents : State → Str → Str → List ScopeManifest
  unfolding includes
  live_parents st repo_id digest =
      filter (λ m. is_live st repo_id m.digest && includes m.children digest)
        (manifests_by_id repo_id)

  unfoldable pub live_referrers : State → Str → Str → List ScopeManifest
  unfolding has_subject
  live_referrers st repo_id digest =
      filter (λ m. is_live st repo_id m.digest && has_subject digest m.subject_digest)
        (manifests_by_id repo_id)

  unfoldable pub is_protected : State → ScopeRepository → Str → Bool
  is_protected st repo digest = has_protected repo (tags_of st repo.id digest)
