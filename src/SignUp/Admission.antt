-- ===== src/SignUp/Admission.antt =====
-- Who gets an account.
use mathlib.Core.List.{Memᴰ}
use mathlib.Core.Option.{some-injective}
use chicoree.Prelude.{
  &&-left, &&-right, ℕ, ◌≡◌, ◌<◌, ltb, refl, sym, Bool, true, false, ◌&&◌, Bool-cases, Option, none,
  some, inl, inr, List, [], ◌∷◌, Str, str_eq, str_eq→eq, find-some, ◌||◌, if◌then◌else◌, lower,
  get_or, find, is_empty, length, arith,
}
use chicoree.SignUp.{
  SignUpMode, «open», invite, closed, AccessSettings, Invitation, pending, usable,
  find_pending_invitation, has_pending_invitation_for, check_invitation, enforce_invite,
  enforce_mode, enforce_sign_up_policy, email_domain_allowed,
}
use chicoree.SignUp.Domains.{any_iff}

-- A pending invitation that has not expired.
pub record IsUsable (invitations : List Invitation) (now : ℕ) (i : Invitation) : Type 0 where
  pub stored : Memᴰ i invitations
  pub is_pending : i.status ≡ pending
  pub ahead : now < i.expires_at

-- Why an address may have an account.
module _ (invitations : List Invitation) (now : ℕ) (address : Str) where
  -- A usable invitation of the id was sent to the address, or no id is given, or an empty one, and a
  -- usable invitation was sent to the address.
  pub data IsInvited (invitation_id : Str) : Type 0 where
    named :
        (i : Invitation)
        → IsUsable invitations now i
        → i.id ≡ invitation_id
        → lower i.email ≡ address
        → IsInvited invitation_id
    addressed :
        (i : Invitation)
        → is_empty invitation_id ≡ true
        → IsUsable invitations now i
        → i.email ≡ address
        → IsInvited invitation_id

  pub data IsEntitled (mode : SignUpMode) (is_first_user : Bool) (invitation_id : Str)
      : Type 0 where
    first_user : is_first_user ≡ true → IsEntitled mode is_first_user invitation_id
    open_mode : mode ≡ «open» → IsEntitled mode is_first_user invitation_id
    invited : mode ≡ invite → IsInvited invitation_id → IsEntitled mode is_first_user invitation_id

find-Memᴰ {ℓ} : {A : Type ℓ} (p : A → Bool) (xs : List A) (a : A) → find p xs ≡ some a → Memᴰ a xs
find-Memᴰ p [] a h = cc (h)
find-Memᴰ p (x ∷ xs) a h = elim (Bool-cases (p x)) [
  | inl e ↦ Memᴰ.head (sym (some-injective x a (rw e at h)))
  | inr e ↦ Memᴰ.tail (find-Memᴰ p xs a (rw e at h))
]

usable-IsUsable :
    (invitations : List Invitation) (now : ℕ) (i : Invitation)
    → Memᴰ i invitations
    → usable now i ≡ true
    → IsUsable invitations now i
usable-IsUsable invitations now i m h = record {
  stored = m;
  is_pending = ground arith;
  ahead = ground arith;
}

module _ (invitations : List Invitation) (now : ℕ) (address : Str) where
  sent_there :
      (i : Invitation)
      → check_invitation invitations now address (some i) ≡ none
      → str_eq (lower i.email) address ≡ true
  unfolding check_invitation
  sent_there i h = ground arith

  check-IsInvited :
      (id : Str) (o : Option Invitation)
      → find (λ i. str_eq i.id id && usable now i) invitations ≡ o
      → check_invitation invitations now address o ≡ none
      → IsInvited invitations now address id
  unfolding check_invitation
  check-IsInvited id none e h = cc (h)
  check-IsInvited id (some i) e h =
      let p : Invitation → Bool = λ j. str_eq j.id id && usable now j in
      let passes : p i ≡ true = find-some p invitations e in
      named i
        (usable-IsUsable invitations now i (find-Memᴰ p invitations i e)
          (&&-right (str_eq i.id id) (usable now i) passes))
        (str_eq→eq i.id id (&&-left (str_eq i.id id) (usable now i) passes))
        (str_eq→eq (lower i.email) address (sent_there i h))

  any-IsInvited :
      (id : Str)
      → is_empty id ≡ true
      → has_pending_invitation_for invitations now address ≡ true
      → IsInvited invitations now address id
  unfolding has_pending_invitation_for
  any-IsInvited id unnamed h =
      let found = (any_iff (λ i. str_eq i.email address && usable now i) invitations).0 h in
      let i = found.0 in
      addressed i unnamed
        (usable-IsUsable invitations now i found.1.0
          (&&-right (str_eq i.email address) (usable now i) found.1.1))
        (str_eq→eq i.email address (&&-left (str_eq i.email address) (usable now i) found.1.1))

  -- Behind the look-up by id.
  lookup-IsInvited :
      (id : Str)
      → check_invitation invitations now address (find_pending_invitation invitations now id) ≡ none
      → IsInvited invitations now address id
  unfolding find_pending_invitation check_invitation
  lookup-IsInvited id h = elim (Bool-cases (is_empty id || ltb 100 (length id))) [
    | inl e ↦ cc (rw e at h)
    | inr e ↦
        check-IsInvited id (find (λ i. str_eq i.id id && usable now i) invitations) refl (rw e at h)
  ]

  invite-IsInvited :
      (invitation_id : Option Str)
      → enforce_invite invitations now address invitation_id ≡ none
      → IsInvited invitations now address (get_or invitation_id [])
  unfolding enforce_invite
  invite-IsInvited invitation_id h = elim (Bool-cases (is_empty (get_or invitation_id []))) [
    | inl e ↦ any-IsInvited (get_or invitation_id []) e (ground arith)
    | inr e ↦ lookup-IsInvited (get_or invitation_id []) (rw e at h)
  ]

  mode-IsEntitled :
      (mode : SignUpMode) (invitation_id : Option Str)
      → enforce_mode invitations now mode address invitation_id ≡ none
      → IsEntitled invitations now address mode false (get_or invitation_id [])
  unfolding enforce_mode
  mode-IsEntitled «open» invitation_id h = open_mode refl
  mode-IsEntitled closed invitation_id h = cc (h)
  mode-IsEntitled invite invitation_id h = invited refl (invite-IsInvited invitation_id h)

module _ (invitations : List Invitation) (now : ℕ) where
  admitted-IsEntitled :
      (address : Str) (mode : SignUpMode) (is_first_user : Bool) (invitation_id : Option Str)
      → (if is_first_user then none else enforce_mode invitations now mode address invitation_id)
        ≡ none
      → IsEntitled invitations now address mode is_first_user (get_or invitation_id [])
  admitted-IsEntitled address mode true invitation_id h = first_user refl
  admitted-IsEntitled address mode false invitation_id h =
      mode-IsEntitled invitations now address mode invitation_id h

  -- Whoever gets an account has an address that the list of domains allows, and is the first user,
  -- or finds the mode open, or holds a pending invitation that has not expired under the mode for
  -- invitations: the named one, sent to the address, or, where no id is named or an empty one, any
  -- that was sent to the address.
  pub enforce-IsEntitled :
      (email : Option Str) (access : AccessSettings) (is_first_user : Bool)
      (invitation_id : Option Str)
      → enforce_sign_up_policy invitations now email access is_first_user invitation_id ≡ none
      → (email_domain_allowed (lower (get_or email [])) access.allowed_email_domains ≡ true)
        × IsEntitled invitations now
            (lower (get_or email []))
            access.sign_up_mode
            is_first_user
            (get_or invitation_id [])
  unfolding enforce_sign_up_policy
  enforce-IsEntitled email access is_first_user invitation_id h =
      let address = lower (get_or email []) in
      elim (Bool-cases (email_domain_allowed address access.allowed_email_domains)) [
        | inr e ↦ cc (rw e at h)
        | inl e ↦ (
          e,
          admitted-IsEntitled address access.sign_up_mode is_first_user invitation_id (rw e at h),
        )
      ]
