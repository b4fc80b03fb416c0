-- ===== src/Quota/Removal/Depth.antt =====
-- The fuel of a removal is enough where the chains of subjects are bounded.
use native.Mathlib.Nat.{mul-le-mul_right}
use chicoree.Prelude.{
  length-filter-le, ap, ℕ, zero, suc, ◌+◌, ◌*◌, ◌≤◌, ◌<◌, ◌≡◌, ◌⊎◌, refl, Bool, true, false, not,
  ◌&&◌, Bool-cases, Option, none, some, inl, inr, List, [], ◌∷◌, All, Str, str_eq, str_eq→eq,
  length, filter, any, arith,
}
use chicoree.Quota.{
  ScopeManifest, ScopeRepository, PruneReason, attached_to, variant_of, State, is_live, has_subject,
  manifest_of, manifests_by_id, live_referrers,
}
use chicoree.Quota.Removal.{
  and_then, unless, each, drop_manifest, child_stays, remove_child, remove_referrer, remove_live,
  remove_found, remove_manifest,
}

pub record Succeeds (P : State → Type 0) (o : Option State) : Type 0 where
  pub result : State
  pub returned : o ≡ some result
  pub fits : P result

-- A manifest is deeper in the chain of subjects than its subject.
abbrev pub IsBelow : (Str → ℕ) → ScopeManifest → Type 0
IsBelow rank m = (s : Str) → m.subject_digest ≡ some s → rank m.digest < rank s

pub length-filter_lt {ℓ} :
    {A : Type ℓ} (p : A → Bool) (xs : List A)
    → any p xs ≡ true
    → length (filter (λ x. not (p x)) xs) < length xs
length-filter_lt p [] h = cc
length-filter_lt p (x ∷ xs) h =
    ground (arith, length-filter_lt p xs, length-filter-le (λ y. not (p y)) xs)

All-always {ℓ κ} : {A : Type ℓ} (P : A → Type κ) (xs : List A) → ((x : A) → P x) → All P xs
All-always P [] h = tt
All-always P (x ∷ xs) h = (h x, All-always P xs h)

has_subject-some : (digest : Str) (o : Option Str) → has_subject digest o ≡ true → o ≡ some digest
unfolding has_subject
has_subject-some digest none h = cc
has_subject-some digest (some s) h = ap some (str_eq→eq s digest h)

pub Succeeds-and_then :
    (P Q : State → Type 0) (o : Option State) (f : State → Option State)
    → Succeeds P o
    → ((b : State) → P b → Succeeds Q (f b))
    → Succeeds Q (and_then o f)
Succeeds-and_then P Q o f h k =
    let next = k h.result h.fits in
    record { result = next.result; returned = rw h.returned next.returned; fits = next.fits }

-- The fuel for a call on a manifest that is deeper in the chain of subjects.
enough_deeper : (a b ra rb k fuel : ℕ) → b ≤ a → rb < ra → a * k + ra < suc fuel → b * k + rb < fuel
enough_deeper a b ra rb k fuel h r e = omega (arith, mul-le-mul_right k h)

-- The fuel for a call with fewer live manifests.
enough_fewer :
    (a b ra rb most fuel : ℕ)
    → b < a
    → rb ≤ most
    → a * suc most + ra < suc fuel
    → b * suc most + rb < fuel
enough_fewer a b ra rb most fuel h r e = omega (arith, mul-le-mul_right (suc most) h)

module _ (repos : List ScopeRepository) (repo : ScopeRepository) where
  -- Fewer manifests are live, or the same are.
  pub record Shrinks (a b : State) : Type 0 where
    pub fewer : length b.live ≤ length a.live
    pub stays :
        (d : Str)
        → is_live a repo.id d ≡ true
        → (is_live b repo.id d ≡ true) ⊎ (length b.live < length a.live)

  Shrinks-same : (a : State) → Shrinks a a
  Shrinks-same a = record { fewer = omega arith; stays = λ d h. inl h }

  Shrinks-chain : (a b c : State) → Shrinks a b → Shrinks b c → Shrinks a c
  Shrinks-chain a b c h k = record {
    fewer = omega (arith, h.fewer, k.fewer);
    stays = λ d e. elim (h.stays d e) [
      | inr lt ↦ inr (omega (arith, lt, k.fewer))
      | inl e' ↦ elim (k.stays d e') [
        | inl e'' ↦ inl e''
        | inr lt ↦ inr (omega (arith, lt, h.fewer))
      ]
    ];
  }

  Shrinks-less : (a b : State) → length b.live < length a.live → Shrinks a b
  Shrinks-less a b h = record { fewer = omega (arith, h); stays = λ d e. inr h }

  Succeeds-weaken :
      (a b : State) (o : Option State)
      → Shrinks a b
      → Succeeds (Shrinks b) o
      → Succeeds (Shrinks a) o
  Succeeds-weaken a b o h k = record {
    result = k.result;
    returned = k.returned;
    fits = Shrinks-chain a b k.result h k.fits;
  }

  Succeeds-each {ℓ} :
      {A : Type ℓ} (most : ℕ) (f : A → State → Option State) (xs : List A)
      → All (λ x. (a : State) → length a.live ≤ most → Succeeds (Shrinks a) (f x a)) xs
      → (a : State) → length a.live ≤ most
      → Succeeds (Shrinks a) (each f xs a)
  Succeeds-each most f [] h a le = record { result = a; returned = refl; fits = Shrinks-same a }
  Succeeds-each most f (x ∷ xs) h a le =
      Succeeds-and_then (Shrinks a) (Shrinks a) (f x a) (each f xs) (h.0 a le) (λ b s.
        Succeeds-weaken a b (each f xs b) s
          (Succeeds-each most f xs h.1 b (omega (arith, le, s.fewer))))

  Succeeds-unless :
      (t : Bool) (f : State → Option State) (a : State)
      → (t ≡ false → Succeeds (Shrinks a) (f a))
      → Succeeds (Shrinks a) (unless t f a)
  Succeeds-unless true f a h = record { result = a; returned = refl; fits = Shrinks-same a }
  Succeeds-unless false f a h = h refl

  drop_manifest-less :
      (m : ScopeManifest) (digest : Str) (reason : PruneReason) (a b : State)
      → is_live a repo.id digest ≡ true
      → Shrinks a b
      → length (drop_manifest repo m digest reason b).live < length a.live
  unfolding drop_manifest
  drop_manifest-less m digest reason a b e h =
      let gone : Str × Str → Bool = λ p. str_eq p.0 repo.id && str_eq p.1 digest in
      elim (h.stays digest e) [
        | inl e' ↦ omega (arith, length-filter_lt gone b.live e', h.fewer)
        | inr lt ↦ omega (arith, length-filter-le (λ p. not (gone p)) b.live, lt)
      ]

  module _ (rank : Str → ℕ) (most : ℕ) (bounded : (d : Str) → rank d ≤ most)
      (below : All (IsBelow rank) (manifests_by_id repos repo.id)) where
    -- What the recursive call does on enough fuel.
    Deep : ℕ → (Str → PruneReason → State → Option State) → Type 0
    Deep fuel rec =
        (d : Str) (r : PruneReason) (a : State)
        → length a.live * suc most + rank d < fuel
        → Succeeds (Shrinks a) (rec d r a)

    referrers-Succeeds :
        (fuel : ℕ) (rec : Str → PruneReason → State → Option State)
        → Deep fuel rec
        → (digest : Str) (a : State) → length a.live * suc most + rank digest < suc fuel
        → (ms : List ScopeManifest) → All (IsBelow rank) ms
        → All
            (λ ref.
              (b : State)
              → length b.live ≤ length a.live
              → Succeeds (Shrinks b) (remove_referrer repos repo rec digest ref b))
            (filter (λ m. is_live a repo.id m.digest && has_subject digest m.subject_digest) ms)
    unfolding remove_referrer Deep
    referrers-Succeeds fuel rec deep digest a enough [] h = tt
    referrers-Succeeds fuel rec deep digest a enough (m ∷ ms) h =
        elim (Bool-cases (is_live a repo.id m.digest && has_subject digest m.subject_digest)) [
          | inl e ↦ rw e (
            λ b le. deep m.digest (attached_to digest) b (
                enough_deeper (length a.live) (length b.live) (rank digest) (rank m.digest)
                  (suc most) fuel le
                  (h.0 digest (has_subject-some digest m.subject_digest (ground arith))) enough),
            referrers-Succeeds fuel rec deep digest a enough ms h.1,
          )
          | inr e ↦ rw e (referrers-Succeeds fuel rec deep digest a enough ms h.1)
        ]

    children-Succeeds :
        (fuel : ℕ) (rec : Str → PruneReason → State → Option State)
        → Deep fuel rec
        → (m : ScopeManifest) (digest : Str) (reason : PruneReason) (a b : State)
        → is_live a repo.id digest ≡ true
        → Shrinks a b
        → length a.live * suc most + rank digest < suc fuel
        → Succeeds (Shrinks a) (
            each
              (remove_child repos repo rec digest)
              m.children
              (drop_manifest repo m digest reason b))
    unfolding remove_child Deep
    children-Succeeds fuel rec deep m digest reason a b e h enough =
        let c = drop_manifest repo m digest reason b in
        let less = drop_manifest-less m digest reason a b e h in
        Succeeds-weaken a c (each (remove_child repos repo rec digest) m.children c)
          (Shrinks-less a c less)
          (Succeeds-each (length c.live) (remove_child repos repo rec digest) m.children
            (All-always _ m.children (λ child d le.
              Succeeds-unless (child_stays repos repo child d) (rec child (variant_of digest)) d
                (λ _. deep child (variant_of digest) d (
                  enough_fewer (length a.live) (length d.live) (rank digest) (rank child) most fuel
                    (omega (arith, le, less)) (bounded child) enough))))
            c (omega arith))

    remove_live-Succeeds :
        (fuel : ℕ) (rec : Str → PruneReason → State → Option State)
        → Deep fuel rec
        → (m : ScopeManifest) (digest : Str) (reason : PruneReason) (a : State)
        → is_live a repo.id digest ≡ true
        → length a.live * suc most + rank digest < suc fuel
        → Succeeds (Shrinks a) (remove_live repos repo rec m digest reason a)
    unfolding remove_live remove_referrer remove_child Deep live_referrers
    remove_live-Succeeds fuel rec deep m digest reason a e enough =
        Succeeds-and_then (Shrinks a) (Shrinks a)
          (each (remove_referrer repos repo rec digest) (live_referrers repos a repo.id digest) a) _
          (Succeeds-each (length a.live) (remove_referrer repos repo rec digest)
            (live_referrers repos a repo.id digest)
            (referrers-Succeeds fuel rec deep digest a enough (manifests_by_id repos repo.id) below)
            a (omega arith))
          (λ b h. children-Succeeds fuel rec deep m digest reason a b e h enough)

    remove_found-Succeeds :
        (fuel : ℕ) (rec : Str → PruneReason → State → Option State)
        → Deep fuel rec
        → (o : Option ScopeManifest) (digest : Str) (reason : PruneReason) (a : State)
        → length a.live * suc most + rank digest < suc fuel
        → Succeeds (Shrinks a) (remove_found repos repo rec o digest reason a)
    unfolding remove_found
    remove_found-Succeeds fuel rec deep none digest reason a enough = record {
      result = a;
      returned = refl;
      fits = Shrinks-same a;
    }
    remove_found-Succeeds fuel rec deep (some m) digest reason a enough =
        Succeeds-unless (not (is_live a repo.id digest))
          (remove_live repos repo rec m digest reason) a
          (λ e. remove_live-Succeeds fuel rec deep m digest reason a (ground arith) enough)

    pub remove_manifest-Succeeds :
        (fuel : ℕ) (digest : Str) (reason : PruneReason) (a : State)
        → length a.live * suc most + rank digest < fuel
        → Succeeds (Shrinks a) (remove_manifest repos repo fuel digest reason a)
    unfolding remove_manifest Deep
    remove_manifest-Succeeds zero digest reason a enough = ground arith
    remove_manifest-Succeeds (suc fuel) digest reason a enough =
        remove_found-Succeeds fuel (remove_manifest repos repo fuel) (remove_manifest-Succeeds fuel)
          (manifest_of repos repo.id digest) digest reason a enough
