-- ===== src/Quota/Removal.antt =====
-- `removeManifest` of web/src/lib/quota-enforce-shared.ts, on fuel for the depth of its recursion;
-- `none` means that the fuel ran out.
pub mod Relations
pub mod Depth
use chicoree.Prelude.{
  ℕ, zero, suc, Bool, true, false, not, ◌||◌, Option, none, some, List, [], ◌∷◌, ◌++◌, Str, str_eq,
  is_empty, filter, ◌&&◌,
}
use chicoree.Quota.{
  ScopeManifest, ScopeRepository, Kind, PruneReason, attached_to, variant_of, State, is_live,
  has_pair, manifest_of, tags_of, live_parents, live_referrers, release_blobs,
}

abbrev pub and_then : Option State → (State → Option State) → Option State
and_then none f = none
and_then (some st) f = f st

-- `if (b) return;` and `if (b) continue;` in front of what follows.
abbrev pub unless : Bool → (State → Option State) → State → Option State
unless true f st = some st
unless false f st = f st

-- A loop whose body changes the state.
abbrev pub each {ℓ} : {A : Type ℓ} → (A → State → Option State) → List A → State → Option State
each f [] st = some st
each f (x ∷ xs) st = and_then (f x st) (each f xs)

-- The statements between the two loops: the manifest is not live any more, its blobs are released.
unfoldable pub drop_manifest : ScopeRepository → ScopeManifest → Str → PruneReason → State → State
unfolding release_blobs
drop_manifest repo m digest reason st = record st {
  live = filter (λ p. not (str_eq p.0 repo.id && str_eq p.1 digest)) st.live;
  blob_refs = release_blobs st.blob_refs m.blobs;
  steps =
      st.steps
      ++ record {
        repository_id = repo.id;
        repository = repo.path;
        kind = Kind.manifest;
        ref = digest;
        reason = reason;
      }
        ∷ [];
}

module _ (repos : List ScopeRepository) (repo : ScopeRepository) where
  -- The test of the loop over the children: `continue` where it holds.
  child_stays : Str → State → Bool
  unfolding live_parents tags_of
  child_stays child st =
      not (is_live st repo.id child)
      || not (is_empty (live_parents repos st repo.id child))
      || not (is_empty (tags_of repos st repo.id child))

  -- The body of `removeManifest`; `rec` is its recursive call.
  module _ (rec : Str → PruneReason → State → Option State) where
    remove_child : Str → Str → State → Option State
    unfolding child_stays
    remove_child digest child st = unless (child_stays child st) (rec child (variant_of digest)) st

    remove_referrer : Str → ScopeManifest → State → Option State
    remove_referrer digest ref st = rec ref.digest (attached_to digest) st

    remove_live : ScopeManifest → Str → PruneReason → State → Option State
    unfolding remove_child remove_referrer drop_manifest live_referrers
    remove_live m digest reason st =
        and_then (each (remove_referrer digest) (live_referrers repos st repo.id digest) st)
          (λ st. each (remove_child digest) m.children (drop_manifest repo m digest reason st))

    remove_found : Option ScopeManifest → Str → PruneReason → State → Option State
    unfolding remove_live
    remove_found none digest reason st = some st
    remove_found (some m) digest reason st =
        unless (not (is_live st repo.id digest)) (remove_live m digest reason) st

  unfoldable pub remove_manifest : ℕ → Str → PruneReason → State → Option State
  unfolding remove_found manifest_of
  remove_manifest zero digest reason st = none
  remove_manifest (suc fuel) digest reason st =
      remove_found (remove_manifest fuel) (manifest_of repos repo.id digest) digest reason st
