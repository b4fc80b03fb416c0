-- ===== src/SignUp/Domains.antt =====
-- What it means that a list of domains allows an address.
use mathlib.Core.List.{Memᴰ}
use mathlib.Core.Option.{some-injective}
use chicoree.Prelude.{
  ap, subst, ℕ, ◌==◌, ◌≡◌, ◌⊎◌, ◌↔◌, refl, sym, Bool, true, false, Bool-cases, Option, none, some,
  Option-cases, inl, inr, List, [], ◌∷◌, ◌++◌, All, Str, str_eq, str_eq_refl, str_eq→eq, str_eq_iff,
  lower, any, arith, ==_iff,
}
use chicoree.SignUp.{behind_at, ends_with, under, domain_allowed, email_domain_allowed}

abbrev pub NoAt : Str → Type 0
NoAt = All (λ c. (c == b'@') ≡ false)

-- An address is a local part, the last `@` and the domain.
pub record IsAddress (email domain : Str) : Type 0 where
  pub local : Str
  pub splits : email ≡ local ++ b'@' ∷ domain
  pub last : NoAt domain

behind_at-none : (s : Str) → behind_at s ≡ none → NoAt s
unfolding behind_at
behind_at-none [] h = tt
behind_at-none (c ∷ s) h = ground (arith, behind_at-none s)

NoAt-behind_at : (s : Str) → NoAt s → behind_at s ≡ none
unfolding behind_at
NoAt-behind_at [] h = refl
NoAt-behind_at (c ∷ s) h = rw (NoAt-behind_at s h.1, h.0) refl

consed : (c : ℕ) (s domain : Str) → IsAddress s domain → IsAddress (c ∷ s) domain
consed c s domain h = record {
  local = c ∷ h.local;
  splits = ap (λ u. c ∷ u) h.splits;
  last = h.last;
}

at_head : (c : ℕ) (s : Str) → (c == b'@') ≡ true → NoAt s → IsAddress (c ∷ s) s
at_head c s e h = record { local = []; splits = ap (λ x. x ∷ s) ((==_iff c b'@').0 e); last = h }

behind_at-IsAddress : (s domain : Str) → behind_at s ≡ some domain → IsAddress s domain
unfolding behind_at
behind_at-IsAddress [] domain h = cc (h)
behind_at-IsAddress (c ∷ s) domain h = elim (Option-cases (behind_at s)) [
  | inr d ↦ consed c s domain (behind_at-IsAddress s domain (ground (arith, d.1)))
  | inl e ↦ elim (Bool-cases (c == b'@')) [
    | inl a ↦
        subst (λ d. IsAddress (c ∷ s) d) (some-injective s domain (rw (e, a) at h))
          (at_head c s a (behind_at-none s e))
    | inr a ↦ cc (rw (e, a) at h)
  ]
]

IsAddress-behind_at :
    (local domain : Str) → NoAt domain → behind_at (local ++ b'@' ∷ domain) ≡ some domain
unfolding behind_at
IsAddress-behind_at [] domain h = rw (NoAt-behind_at domain h) refl
IsAddress-behind_at (c ∷ local) domain h = rw (IsAddress-behind_at local domain h) refl

suffix : (s t : Str) → ends_with s t ≡ true → (p : Str) × (s ≡ p ++ t)
unfolding ends_with
suffix [] [] h = ([], refl)
suffix [] (c ∷ t) h = cc (h)
suffix (c ∷ s) t h = elim (Bool-cases (str_eq (c ∷ s) t)) [
  | inl e ↦ ([], str_eq→eq (c ∷ s) t e)
  | inr e ↦ let rest = suffix s t (rw e at h) in (c ∷ rest.0, ap (λ u. c ∷ u) rest.1)
]

whole : (p t : Str) → ends_with (p ++ t) t ≡ true
unfolding ends_with
whole [] [] = refl
whole [] (c ∷ t) = rw (str_eq_refl (c ∷ t)) refl
whole (c ∷ p) t = ground (arith, whole p t)

pub ends_with_iff : (s t : Str) → (ends_with s t ≡ true) ↔ ((p : Str) × (s ≡ p ++ t))
ends_with_iff s t = (suffix s t, λ h. subst (λ u. ends_with u t ≡ true) (sym h.1) (whole h.0 t))

-- A domain is the one of the list, or lies below it.
abbrev pub IsUnder : Str → Str → Type 0
IsUnder domain d = (domain ≡ d) ⊎ ((sub : Str) × (domain ≡ sub ++ b'.' ∷ d))

under_iff : (domain d : Str) → (under domain d ≡ true) ↔ IsUnder domain d
unfolding under
under_iff domain d = (
  λ h. elim (Bool-cases (str_eq domain d)) [
    | inl e ↦ inl (str_eq→eq domain d e)
    | inr e ↦ inr ((ends_with_iff domain (b'.' ∷ d)).0 (rw e at h))
  ],
  λ h. elim h [
    | inl e ↦ ground (arith, str_eq_iff domain d)
    | inr e ↦ ground (arith, (ends_with_iff domain (b'.' ∷ d)).1 e)
  ],
)

any-of {ℓ} :
    {A : Type ℓ} (p : A → Bool) (xs : List A) (x : A) → Memᴰ x xs → p x ≡ true → any p xs ≡ true
any-of p [] x m h = elim m [ ]
any-of p (y ∷ xs) x (Memᴰ.head e) h = rw (subst (λ z. p z ≡ true) e h) refl
any-of p (y ∷ xs) x (Memᴰ.tail m) h = ground (arith, any-of p xs x m h)

pub any_iff {ℓ} :
    {A : Type ℓ} (p : A → Bool) (xs : List A)
    → (any p xs ≡ true) ↔ ((x : A) × (Memᴰ x xs × (p x ≡ true)))
any_iff p [] = (λ h. cc (h), λ h. elim h.1.0 [ ])
any_iff p (x ∷ xs) = (
  λ h. elim (Bool-cases (p x)) [
    | inl e ↦ (x, (Memᴰ.head refl, e))
    | inr e ↦
        let found = (any_iff p xs).0 (rw e at h) in (found.0, (Memᴰ.tail found.1.0, found.1.1))
  ],
  λ h. any-of p (x ∷ xs) h.0 h.1.0 h.1.1,
)

-- An address has a domain that is in the list or below one of it.
pub record IsAllowed (email : Str) (domains : List Str) : Type 0 where
  pub domain : Str
  pub address : IsAddress email domain
  pub allowing : Str
  pub listed : Memᴰ allowing domains
  pub under : IsUnder (lower domain) allowing

domain_allowed-IsAllowed :
    (email : Str) (domains : List Str) (o : Option Str)
    → behind_at email ≡ o
    → domain_allowed domains o ≡ true
    → IsAllowed email domains
unfolding domain_allowed
domain_allowed-IsAllowed email domains none e h = cc (h)
domain_allowed-IsAllowed email domains (some domain) e h =
    let found = (any_iff (under (lower domain)) domains).0 h in
    record {
      domain = domain;
      address = behind_at-IsAddress email domain e;
      allowing = found.0;
      listed = found.1.0;
      under = (under_iff (lower domain) found.0).0 found.1.1;
    }

IsAllowed-domain_allowed :
    (email : Str) (domains : List Str)
    → IsAllowed email domains
    → domain_allowed domains (behind_at email) ≡ true
unfolding domain_allowed
IsAllowed-domain_allowed email domains h =
    let at : behind_at email ≡ some h.domain =
      subst (λ u. behind_at u ≡ some h.domain) (sym h.address.splits)
        (IsAddress-behind_at h.address.local h.domain h.address.last) in
    rw at (
      (any_iff (under (lower h.domain)) domains).1
        (h.allowing, (h.listed, (under_iff (lower h.domain) h.allowing).1 h.under)))

-- With a list of domains an address is allowed exactly where its domain, in lower case and read
-- from the last `@`, is one of the list or lies below one.
pub email_domain_allowed-IsAllowed :
    (email : Str) (first : Str) (more : List Str)
    → (email_domain_allowed email (first ∷ more) ≡ true) ↔ IsAllowed email (first ∷ more)
unfolding email_domain_allowed
email_domain_allowed-IsAllowed email first more = (
  λ h. domain_allowed-IsAllowed email (first ∷ more) (behind_at email) refl h,
  λ h. IsAllowed-domain_allowed email (first ∷ more) h,
)
