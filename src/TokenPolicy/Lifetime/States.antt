-- ===== src/TokenPolicy/Lifetime/States.antt =====
-- The states of an expiry, and what the form offers.
use chicoree.Prelude.{
  ℕ, ◌+◌, ◌-◌, ◌≤◌, ◌<◌, ◌≡◌, inl, inr, refl, true, false, Option, none, some, List, [], ◌∷◌, map,
  filter, if◌then◌else◌, All, All-append, arith, ◌/◌, Bool-cases, leb,
}
use chicoree.TokenPolicy.Lifetime.{
  TokenExpiryPolicy, day_ms, cap, ExpiryOption, preset, maximum, custom, under_cap, maximum_option,
  expiry_options, expiry_preset_days, ExpiryState, expired, expiring, active, expiry_state,
  is_expired,
}

-- An expiry has passed exactly where its state is `expired`; a token that is not expired has at
-- least one day left, and is `expiring` within the days of warning and `active` beyond.
abbrev pub StateFits : ℕ → Option ℕ → ℕ → ExpiryState → Type 0
StateFits warn at now ExpiryState.never = at ≡ none
StateFits warn at now (expired ago) = is_expired at now ≡ true
StateFits warn at now (expiring left) = (is_expired at now ≡ false) × (0 < left) × (left ≤ warn)
StateFits warn at now (active left) = (is_expired at now ≡ false) × (0 < left) × (warn < left)

-- The state of an expiry is expired exactly where isExpired says so; otherwise at least one day is
-- left, expiring within the days of warning and active beyond.
pub expiry_state-StateFits :
    (at : Option ℕ) (now warn : ℕ) → StateFits warn at now (expiry_state at now warn)
unfolding expiry_state is_expired
expiry_state-StateFits none now warn = refl
expiry_state-StateFits (some at) now warn = elim (Bool-cases (leb at now)) [
  | inl e ↦ rw e e
  | inr e ↦ rw e (elim (Bool-cases (leb ((at - now + (day_ms - 1)) / day_ms) warn)) [
    | inl w ↦ rw w (e, ground arith, ground arith)
    | inr w ↦ rw w (e, ground arith, ground arith)
  ])
]

-- What the form offers.
abbrev pub IsOffered : TokenExpiryPolicy → ExpiryOption → Type 0
IsOffered policy (preset d) =
    (0 < d) × (0 < policy.max_token_lifetime_days → d ≤ policy.max_token_lifetime_days)
IsOffered policy (maximum d) = (0 < d) × (d ≡ policy.max_token_lifetime_days)
IsOffered policy custom = Unit
IsOffered policy ExpiryOption.never = policy.require_token_expiry ≡ false

presets-IsOffered :
    (policy : TokenExpiryPolicy) (ds : List ℕ)
    → All (λ d. 0 < d) ds
    → All (IsOffered policy) (map preset (filter (under_cap (cap policy)) ds))
presets-IsOffered policy [] h = tt
presets-IsOffered policy (d ∷ ds) h = elim (Bool-cases (under_cap (cap policy) d)) [
  | inl e ↦ rw e ((h.0, λ limited. ground arith), presets-IsOffered policy ds h.1)
  | inr e ↦ rw e (presets-IsOffered policy ds h.1)
]

maximum-IsOffered :
    (policy : TokenExpiryPolicy) → All (IsOffered policy) (maximum_option (cap policy))
maximum-IsOffered policy = ground arith

never-IsOffered :
    (policy : TokenExpiryPolicy)
    → All (IsOffered policy) (if policy.require_token_expiry then [] else ExpiryOption.never ∷ [])
never-IsOffered policy = ground arith

-- Each number of days that the form offers is positive and within the maximum, and never is offered
-- only where no expiry is required.
pub expiry_options-IsOffered :
    (policy : TokenExpiryPolicy) → All (IsOffered policy) (expiry_options policy)
unfolding expiry_options
expiry_options-IsOffered policy =
    All-append (IsOffered policy) (map preset (filter (under_cap (cap policy)) expiry_preset_days))
      _ (presets-IsOffered policy expiry_preset_days (omega arith))
      (All-append (IsOffered policy) (maximum_option (cap policy)) _ (maximum-IsOffered policy)
        (tt, never-IsOffered policy))
