-- ===== src/Quota/Pruning/Logs.antt =====
-- Each removed tag has its step, and steps are only added.
use chicoree.Prelude.{
  ℕ, ◌≡◌, Bool, true, false, ◌&&◌, Bool-cases, inl, inr, List, [], ◌∷◌, ◌++◌, Str, str_eq,
  str_eq_refl, any, arith,
}
use chicoree.Quota.{
  ScopeManifest, ScopeTag, ScopeRepository, Kind, PruneReason, PruneStep, State, has_pair,
}
use chicoree.Quota.Removal.{drop_manifest}
use chicoree.Quota.Removal.Relations.{OnSome}
use chicoree.Quota.Pruning.{drop_tag, drop_image, prune_tag}
use chicoree.Quota.Pruning.Loops.{IsTagOf, OnSome-drop_image, OnSome-prune_tag}

abbrev is_tag_kind : Kind → Bool
is_tag_kind Kind.tag = true
is_tag_kind Kind.manifest = false

-- A step removes the tag of the name in the repository of the id.
pub removes : Str → Str → PruneStep → Bool
removes id name s = is_tag_kind s.kind && str_eq s.repository_id id && str_eq s.ref name

-- Each removed tag has its step.
abbrev pub IsLogged : State → Type 0
IsLogged a =
    (id name : Str) → has_pair a.removed_tags id name ≡ true → any (removes id name) a.steps ≡ true

pub record Logs (a b : State) : Type 0 where
  pub logged : IsLogged a → IsLogged b
  pub keeps :
      (id name : Str) → any (removes id name) a.steps ≡ true → any (removes id name) b.steps ≡ true

pub Logs-same : (a : State) → Logs a a
Logs-same a = record { logged = λ h. h; keeps = λ id name h. h }

pub Logs-chain : (a b c : State) → Logs a b → Logs b c → Logs a c
Logs-chain a b c h k = record {
  logged = λ l. k.logged (h.logged l);
  keeps = λ id name e. k.keeps id name (h.keeps id name e);
}

any-append-left {ℓ} :
    {A : Type ℓ} (p : A → Bool) (xs ys : List A) → any p xs ≡ true → any p (xs ++ ys) ≡ true
any-append-left p [] ys h = cc
any-append-left p (x ∷ xs) ys h = ground (arith, any-append-left p xs ys)

any-append-last {ℓ} :
    {A : Type ℓ} (p : A → Bool) (xs : List A) (y : A) → p y ≡ true → any p (xs ++ y ∷ []) ≡ true
any-append-last p [] y h = ground arith
any-append-last p (x ∷ xs) y h = ground (arith, any-append-last p xs y)

pub drop_manifest-Logs :
    (repo : ScopeRepository) (m : ScopeManifest) (digest : Str) (reason : PruneReason) (a : State)
    → Logs a (drop_manifest repo m digest reason a)
unfolding drop_manifest
drop_manifest-Logs repo m digest reason a = record {
  logged = λ l id name e. any-append-left (removes id name) a.steps _ (l id name e);
  keeps = λ id name e. any-append-left (removes id name) a.steps _ e;
}

module _ (repos : List ScopeRepository) (limit : ℕ) where
  pub drop_tag-removes :
      (repo : ScopeRepository) (t : ScopeTag) (a : State)
      → any (removes repo.id t.name) (drop_tag repos limit repo t a).steps ≡ true
  unfolding drop_tag removes
  drop_tag-removes repo t a =
      any-append-last (removes repo.id t.name) a.steps _
        (rw (str_eq_refl repo.id, str_eq_refl t.name))

  drop_tag-IsLogged :
      (repo : ScopeRepository) (t : ScopeTag) (a : State)
      → IsLogged a
      → IsLogged (drop_tag repos limit repo t a)
  unfolding drop_tag removes
  drop_tag-IsLogged repo t a l id name e =
      elim (Bool-cases (str_eq repo.id id && str_eq t.name name)) [
        | inl h ↦ any-append-last (removes id name) a.steps _ h
        | inr h ↦ any-append-left (removes id name) a.steps _ (l id name (rw h at e))
      ]

  pub drop_tag-Logs :
      (repo : ScopeRepository) (t : ScopeTag) (a : State) → Logs a (drop_tag repos limit repo t a)
  unfolding drop_tag
  drop_tag-Logs repo t a = record {
    logged = λ l id name e. drop_tag-IsLogged repo t a l id name e;
    keeps = λ id name e. any-append-left (removes id name) a.steps _ e;
  }

  pub drop_image-Logs :
      (repo : ScopeRepository) (t : ScopeTag) (a : State)
      → OnSome (Logs a) (drop_image repos limit repo t a)
  drop_image-Logs =
      OnSome-drop_image repos limit Logs Logs-same Logs-chain drop_manifest-Logs
        (λ repo t a q e. drop_tag-Logs repo t a)

  pub prune_tag-Logs :
      (x : ScopeRepository × ScopeTag) (a : State)
      → IsTagOf repos x
      → OnSome (Logs a) (prune_tag repos limit x a)
  prune_tag-Logs =
      OnSome-prune_tag repos limit Logs Logs-same Logs-chain drop_manifest-Logs
        (λ repo t a q e. drop_tag-Logs repo t a)
