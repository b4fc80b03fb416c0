-- ===== src/Quota/Removal/Relations.antt =====
-- What holds between the states before and after a removal: any preorder that dropping one manifest
-- respects.
use chicoree.Prelude.{
  ℕ, zero, suc, ◌≡◌, refl, Bool, true, false, not, Option, none, some, List, [], ◌∷◌, Str,
}
use chicoree.Quota.{
  ScopeManifest, ScopeRepository, PruneReason, State, is_live, manifest_of, live_referrers,
}
use chicoree.Quota.Removal.{
  and_then, unless, each, drop_manifest, child_stays, remove_child, remove_referrer, remove_live,
  remove_found, remove_manifest,
}

-- A predicate on the result, where there is one.
abbrev pub OnSome {ℓ κ} : {A : Type ℓ} → (A → Type κ) → Option A → Type κ
OnSome P none = Unit
OnSome P (some a) = P a

module _ {κ} (R : State → State → Type κ) (same : (st : State) → R st st)
    (chain : (a b c : State) → R a b → R b c → R a c) where
  pub OnSome-chain : (a b : State) (o : Option State) → R a b → OnSome (R b) o → OnSome (R a) o
  OnSome-chain a b none h k = tt
  OnSome-chain a b (some c) h k = chain a b c h k

  pub OnSome-and_then :
      (a : State) (o : Option State) (f : State → Option State)
      → OnSome (R a) o
      → ((b : State) → OnSome (R b) (f b))
      → OnSome (R a) (and_then o f)
  OnSome-and_then a none f h k = tt
  OnSome-and_then a (some b) f h k = OnSome-chain a b (f b) h (k b)

  pub OnSome-unless :
      (t : Bool) (f : State → Option State) (a : State)
      → OnSome (R a) (f a)
      → OnSome (R a) (unless t f a)
  OnSome-unless true f a h = same a
  OnSome-unless false f a h = h

  pub OnSome-each {ℓ} :
      {A : Type ℓ} (f : A → State → Option State) (xs : List A)
      → ((x : A) (a : State) → OnSome (R a) (f x a))
      → (a : State) → OnSome (R a) (each f xs a)
  OnSome-each f [] h a = same a
  OnSome-each f (x ∷ xs) h a = OnSome-and_then a (f x a) (each f xs) (h x a) (OnSome-each f xs h)

  module _ (repos : List ScopeRepository) (repo : ScopeRepository)
      (dropped : (m : ScopeManifest) (digest : Str) (reason : PruneReason) (a : State)
        → manifest_of repos repo.id digest ≡ some m
        → R a (drop_manifest repo m digest reason a)) where
    OnSome-remove_live :
        (rec : Str → PruneReason → State → Option State)
        → ((d : Str) (r : PruneReason) (a : State) → OnSome (R a) (rec d r a))
        → (m : ScopeManifest) (digest : Str) (reason : PruneReason) (a : State)
        → manifest_of repos repo.id digest ≡ some m
        → OnSome (R a) (remove_live repos repo rec m digest reason a)
    unfolding remove_live remove_referrer remove_child
    OnSome-remove_live rec h m digest reason a e =
        OnSome-and_then a
          (each (remove_referrer repos repo rec digest) (live_referrers repos a repo.id digest) a) _
          (OnSome-each _ (live_referrers repos a repo.id digest) (λ ref b. h ref.digest _ b) a)
          (λ b.
            OnSome-chain b (drop_manifest repo m digest reason b) _ (dropped m digest reason b e) (
              OnSome-each _ m.children
                (λ child c. OnSome-unless (child_stays repos repo child c) _ c (h child _ c))
                (drop_manifest repo m digest reason b)))

    OnSome-remove_found :
        (rec : Str → PruneReason → State → Option State)
        → ((d : Str) (r : PruneReason) (a : State) → OnSome (R a) (rec d r a))
        → (o : Option ScopeManifest) (digest : Str) (reason : PruneReason) (a : State)
        → manifest_of repos repo.id digest ≡ o
        → OnSome (R a) (remove_found repos repo rec o digest reason a)
    unfolding remove_found
    OnSome-remove_found rec h none digest reason a e = same a
    OnSome-remove_found rec h (some m) digest reason a e =
        OnSome-unless (not (is_live a repo.id digest)) _ a
          (OnSome-remove_live rec h m digest reason a e)

    pub OnSome-remove_manifest :
        (fuel : ℕ) (digest : Str) (reason : PruneReason) (a : State)
        → OnSome (R a) (remove_manifest repos repo fuel digest reason a)
    unfolding remove_manifest
    OnSome-remove_manifest zero digest reason a = tt
    OnSome-remove_manifest (suc fuel) digest reason a =
        OnSome-remove_found (remove_manifest repos repo fuel) (OnSome-remove_manifest fuel)
          (manifest_of repos repo.id digest) digest reason a refl
