-- ===== src/TokenPolicy/Lifetime/Bounds.antt =====
-- What the server accepts as an expiry, and that the form offers nothing else.
use chicoree.Prelude.{
  ltb, ◌==◌, ◌⊎◌, inl, inr, Bool-cases, ℕ, ◌+◌, ◌*◌, ◌≤◌, ◌<◌, ◌≡◌, ◌∙◌, is_empty, false, Option,
  none, some, [], if◌then◌else◌, Str, str, str_eq, trim, lower, arith,
}
use chicoree.TokenPolicy.Lifetime.{
  max_time, TokenExpiryPolicy, day_ms, minute_ms, cap, expires, refused, expiry_required,
  check_date, check_days, check_custom, resolve_expiry, lifetime_days, capped, replacement_expiry,
}

-- No expiry only where none is required; a date that is none of the Invalid Date lies ahead, and
-- within the cap and its minute.
abbrev pub IsAllowed : TokenExpiryPolicy → ℕ → Option ℕ → Type 0
IsAllowed policy now none = policy.require_token_expiry ≡ false
IsAllowed policy now (some at) =
    (max_time < at)
    ⊎ ((now < at)
        × ((policy.max_token_lifetime_days ≡ 0)
            ⊎ (at ≤ now + policy.max_token_lifetime_days * day_ms + minute_ms)))

check_date-IsAllowed :
    (policy : TokenExpiryPolicy) (now at : ℕ) (r : Option ℕ)
    → check_date policy now at ≡ expires r
    → IsAllowed policy now r
unfolding check_date
check_date-IsAllowed policy now at none h = ground arith
check_date-IsAllowed policy now at (some e) h = elim (Bool-cases (ltb max_time at)) [
  | inl late ↦ inl (ground arith)
  | inr valid ↦ elim (Bool-cases (policy.max_token_lifetime_days == 0)) [
    | inl free ↦ inr (ground arith, inl (ground arith))
    | inr limited ↦ inr (ground arith, inr (ground arith))
  ]
]

check_date-accepts :
    (policy : TokenExpiryPolicy) (now days : ℕ)
    → 0 < days
    → (0 < policy.max_token_lifetime_days → days ≤ policy.max_token_lifetime_days)
    → check_date policy now (now + days * day_ms) ≡ expires (some (now + days * day_ms))
unfolding check_date
check_date-accepts policy now days h k = ground arith

check_custom-IsAllowed :
    (policy : TokenExpiryPolicy) (now : ℕ) (date : Option ℕ) (r : Option ℕ)
    → check_custom policy now date ≡ expires r
    → IsAllowed policy now r
unfolding check_custom
check_custom-IsAllowed policy now none r h = cc
check_custom-IsAllowed policy now (some at) r h = check_date-IsAllowed policy now at r h

check_days-IsAllowed :
    (policy : TokenExpiryPolicy) (now : ℕ) (days : Option ℕ) (r : Option ℕ)
    → check_days policy now days ≡ expires r
    → IsAllowed policy now r
unfolding check_days
check_days-IsAllowed policy now none r h = cc
check_days-IsAllowed policy now (some d) r h =
    check_date-IsAllowed policy now (now + d * day_ms) r h

no_expiry-IsAllowed :
    (policy : TokenExpiryPolicy) (now : ℕ) (r : Option ℕ)
    → (if policy.require_token_expiry then refused expiry_required else expires none) ≡ expires r
    → IsAllowed policy now r
no_expiry-IsAllowed policy now none h = ground arith
no_expiry-IsAllowed policy now (some e) h = ground arith

capped-pos : (policy : TokenExpiryPolicy) (days : ℕ) → 0 < days → 0 < capped (cap policy) days
capped-pos policy days h = ground arith

capped-le :
    (policy : TokenExpiryPolicy) (days : ℕ)
    → 0 < policy.max_token_lifetime_days
    → capped (cap policy) days ≤ policy.max_token_lifetime_days
capped-le policy days h = ground arith

module _ (number date_value : Str → Option ℕ) where
  -- An accepted expiry obeys the instance policy, unless it is the Invalid Date, past the greatest
  -- time of a date: none only where none is required, else a date ahead, and at most the maximal
  -- days and a minute ahead where there is a maximum.
  pub resolve_expiry-IsAllowed :
      (choice custom_date : Str) (policy : TokenExpiryPolicy) (now : ℕ) (r : Option ℕ)
      → resolve_expiry number date_value choice custom_date policy now ≡ expires r
      → IsAllowed policy now r
  unfolding resolve_expiry
  resolve_expiry-IsAllowed choice custom_date policy now r h = ground (
    arith,
    no_expiry-IsAllowed policy now r,
    check_custom-IsAllowed policy now (date_value (trim custom_date)) r,
    check_days-IsAllowed policy now (number (lower (trim choice))) r,
  )

  -- The text of a number of days, as the form would send it, is read back.
  pub record ReadsBack (days_text : ℕ → Str) (days : ℕ) : Type 0 where
    pub word : is_empty (lower (trim (days_text days))) ≡ false
    pub not_never : str_eq (lower (trim (days_text days))) (str "never") ≡ false
    pub not_custom : str_eq (lower (trim (days_text days))) (str "custom") ≡ false
    pub read : number (lower (trim (days_text days))) ≡ some days

  resolve_expiry-days :
      (days_text : ℕ → Str) (days : ℕ) (policy : TokenExpiryPolicy) (now : ℕ)
      → ReadsBack days_text days
      → resolve_expiry number date_value (days_text days) [] policy now
        ≡ check_date policy now (now + days * day_ms)
  unfolding resolve_expiry check_days
  resolve_expiry-days days_text days policy now r = rw (r.word, r.not_never, r.not_custom, r.read)

  -- If the text of the number of days is read back, a rotated credential that had an expiry gets
  -- one: its own lifetime in whole days, at least one, cut to the policy's maximum, counted from
  -- now.
  pub replacement_expiry-lifetime :
      (days_text : ℕ → Str) (created_at expires_at : ℕ) (policy : TokenExpiryPolicy) (now : ℕ)
      → ReadsBack days_text (capped (cap policy) (lifetime_days created_at expires_at))
      → replacement_expiry number date_value days_text created_at (some expires_at) policy now
        ≡ expires (some (now + capped (cap policy) (lifetime_days created_at expires_at) * day_ms))
  unfolding replacement_expiry
  replacement_expiry-lifetime days_text created_at expires_at policy now r =
      resolve_expiry-days days_text (capped (cap policy) (lifetime_days created_at expires_at))
        policy now r
      ∙ check_date-accepts policy now (capped (cap policy) (lifetime_days created_at expires_at))
          (capped-pos policy (lifetime_days created_at expires_at) (omega arith))
          (capped-le policy (lifetime_days created_at expires_at))
