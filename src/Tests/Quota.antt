-- ===== src/Tests/Quota.antt =====
-- Repositories above their limit of 50. In the first the old tag and its image go and the newer,
-- protected image stays, which shares a blob with the old one and has a signature.
use Prim.Native.Nat.{Ordering}
use chicoree.Prelude.{
  Option, map, ℕ, ◌≡◌, refl, true, false, none, some, List, [], ◌∷◌, All, Str, str, str_eq,
  if◌then◌else◌, arith,
}
use chicoree.Prelude.Sorting.{sort}
use chicoree.TagRules.{tag_flags, match_tag_glob, match_tag_glob?}
use chicoree.Quota.{
  Kind, pushed, last_tag, Blob, ScopeRepository, ScopeManifest, PrunePlan, all_live,
}
use chicoree.Quota.Removal.Relations.{OnSome}
use chicoree.Quota.Pruning.{plan_prune_to_fit, tags_in}
use chicoree.Quota.Pruning.Safety.{StepFits, plan-spares_protected}
use chicoree.Quota.Pruning.Termination.{IsRanked, plan-returns}
use chicoree.Quota.Pruning.Exhausted.{IsDone, plan_unmet-IsDone}

abbrev by_name : Str → Str → Ordering
by_name s t = Ordering.eq

abbrev layer : List Blob
layer = record { digest = str "layer"; size = 10 } ∷ []

abbrev scope : List ScopeRepository
scope =
    record {
      id = str "r";
      path = str "org/name";
      manifests =
          record {
            digest = str "old-image";
            pushed_at = 1;
            subject_digest = none;
            blobs = record { digest = str "old-layer"; size = 60 } ∷ layer;
            children = [];
          }
          ∷ record {
            digest = str "image";
            pushed_at = 2;
            subject_digest = none;
            blobs = record { digest = str "config"; size = 50 } ∷ layer;
            children = [];
          }
          ∷ record {
            digest = str "signature";
            pushed_at = 3;
            subject_digest = some (str "image");
            blobs = [];
            children = [];
          }
          ∷ [];
      tags =
          record { name = str "stable"; digest = str "image"; pushed_at = 2 }
          ∷ record { name = str "old"; digest = str "old-image"; pushed_at = 1 }
          ∷ [];
      rules =
          record {
            pattern = str "stab*";
            immutable = false;
            protected = true;
            repository_id = none;
          }
          ∷ [];
    }
    ∷ []

plan-spares_protected_example :
    OnSome (λ plan. All (StepFits scope) plan.steps) (plan_prune_to_fit scope 50 by_name)
plan-spares_protected_example = plan-spares_protected scope 50 by_name

depth_of : Str → ℕ
depth_of digest = if str_eq digest (str "image") then 1 else 0

scope-IsRanked : IsRanked scope depth_of
unfolding depth_of all_live str_eq
scope-IsRanked = record {
  bounded = λ d. ground arith;
  below = (((λ s e. cc (e)), ((λ s e. cc (e)), ((λ s e. ground arith), tt))), tt);
}

plan-returns_example : (plan : PrunePlan) × (plan_prune_to_fit scope 50 by_name ≡ some plan)
plan-returns_example = plan-returns scope 50 depth_of scope-IsRanked by_name

abbrev plan : PrunePlan
plan = record {
  steps =
      record {
        repository_id = str "r";
        repository = str "org/name";
        kind = Kind.tag;
        ref = str "old";
        reason = pushed 1;
      }
      ∷ record {
        repository_id = str "r";
        repository = str "org/name";
        kind = Kind.manifest;
        ref = str "old-image";
        reason = last_tag (str "old");
      }
      ∷ [];
  before_bytes = 120;
  after_bytes = 60;
  unmet = true;
}

planned : plan_prune_to_fit scope 50 by_name ≡ some plan
unfolding plan_prune_to_fit sort tag_flags match_tag_glob match_tag_glob?
planned = refl

plan_unmet-IsDone_example : All (IsDone scope plan.steps) (tags_in scope)
plan_unmet-IsDone_example = plan_unmet-IsDone scope 50 by_name plan planned refl

-- An image and its signature, which has a protected tag of its own.
abbrev signed : List ScopeRepository
signed =
    record {
      id = str "r";
      path = str "org/name";
      manifests =
          record {
            digest = str "image";
            pushed_at = 1;
            subject_digest = none;
            blobs = record { digest = str "layer"; size = 60 } ∷ [];
            children = [];
          }
          ∷ record {
            digest = str "signature";
            pushed_at = 2;
            subject_digest = some (str "image");
            blobs = [];
            children = [];
          }
          ∷ [];
      tags =
          record { name = str "old"; digest = str "image"; pushed_at = 1 }
          ∷ record { name = str "sig"; digest = str "signature"; pushed_at = 2 }
          ∷ [];
      rules =
          record { pattern = str "sig"; immutable = false; protected = true; repository_id = none }
          ∷ [];
    }
    ∷ []

refs_of : Option PrunePlan → List Str
refs_of none = []
refs_of (some p) = map (λ s. s.ref) p.steps

-- The image that the protected tag names goes with its subject.
protected_referrer :
    refs_of (plan_prune_to_fit signed 50 by_name) ≡ str "old" ∷ str "signature" ∷ str "image" ∷ []
unfolding refs_of plan_prune_to_fit sort tag_flags match_tag_glob match_tag_glob?
protected_referrer = refl

abbrev bare : Str → Option Str → List Str → ScopeManifest
bare digest subject children = record {
  digest = digest;
  pushed_at = 1;
  subject_digest = subject;
  blobs = record { digest = str "shared"; size = 60 } ∷ [];
  children = children;
}

-- An attestation of an image, and an index that is attached to the attestation and lists it too.
abbrev attached : List ScopeRepository
attached =
    record {
      id = str "r";
      path = str "org/name";
      manifests =
          bare (str "image") none []
          ∷ bare (str "att") (some (str "image")) []
          ∷ bare (str "index") (some (str "att")) (str "att" ∷ [])
          ∷ [];
      tags = record { name = str "old"; digest = str "image"; pushed_at = 1 } ∷ [];
      rules = [];
    }
    ∷ []

-- The attestation is removed twice.
removed_twice :
    refs_of (plan_prune_to_fit attached 50 by_name)
    ≡ str "old" ∷ str "index" ∷ str "att" ∷ str "att" ∷ str "image" ∷ []
unfolding refs_of plan_prune_to_fit sort tag_flags match_tag_glob match_tag_glob?
removed_twice = refl
