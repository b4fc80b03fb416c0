-- ===== src/TokenPolicy/Lifetime.antt =====
-- web/src/lib/token-policy-shared.ts: expiry options, dates under the instance policy, and states.
-- A time is its number of milliseconds; `Infinity` is the absent cap.
pub mod Bounds
pub mod States
use chicoree.Prelude.{
  ℕ, ◌+◌, ◌-◌, ◌*◌, ◌/◌, Bool, true, false, not, ◌&&◌, ◌||◌, Option, none, some, List, [], ◌∷◌,
  ◌++◌, map, ltb, leb, ◌==◌, min, max, if◌then◌else◌, Str, str, str_eq, is_empty, trim, lower,
  filter, find, any,
}

pub record TokenExpiryPolicy : Type 0 where
  -- 0 is unlimited.
  pub max_token_lifetime_days : ℕ
  pub require_token_expiry : Bool

abbrev pub expiry_preset_days : List ℕ
expiry_preset_days = 7 ∷ 30 ∷ 90 ∷ 365 ∷ []

abbrev pub day_ms : ℕ
day_ms = 24 * 3600 * 1000

abbrev pub minute_ms : ℕ
minute_ms = 60_000

-- `cap`: the longest lifetime in days.
abbrev pub cap : TokenExpiryPolicy → Option ℕ
cap policy =
    if ltb 0 policy.max_token_lifetime_days then some policy.max_token_lifetime_days else none

-- The `value` of an option; `maximum` is the cap with its description "Instance maximum".
pub data ExpiryOption : Type 0 where
  preset maximum : (days : ℕ) → ExpiryOption
  custom never : ExpiryOption

abbrev under_cap : Option ℕ → ℕ → Bool
under_cap none d = true
under_cap (some c) d = leb d c

abbrev maximum_option : Option ℕ → List ExpiryOption
maximum_option none = []
maximum_option (some c) = if any (λ d. d == c) expiry_preset_days then [] else maximum c ∷ []

unfoldable pub expiry_options : TokenExpiryPolicy → List ExpiryOption
expiry_options policy =
    map preset (filter (under_cap (cap policy)) expiry_preset_days)
    ++ (maximum_option (cap policy)
        ++ custom ∷ (if policy.require_token_expiry then [] else never ∷ []))

-- The days of an option that is neither "custom" nor "never".
abbrev pub option_days : ExpiryOption → Option ℕ
option_days (preset d) = some d
option_days (maximum d) = some d
option_days custom = none
option_days never = none

is_days : ExpiryOption → Bool
is_days (preset d) = true
is_days (maximum d) = true
is_days custom = false
is_days never = false

is_ninety : ExpiryOption → Bool
is_ninety (preset d) = d == 90
is_ninety (maximum d) = d == 90
is_ninety custom = false
is_ninety never = false

last_or_custom : List ExpiryOption → ExpiryOption
last_or_custom [] = custom
last_or_custom (o ∷ []) = o
last_or_custom (o ∷ p ∷ os) = last_or_custom (p ∷ os)

ninety_or_last : Option ExpiryOption → List ExpiryOption → ExpiryOption
unfolding last_or_custom
ninety_or_last (some o) options = o
ninety_or_last none options = last_or_custom options

unfoldable pub default_expiry_choice : TokenExpiryPolicy → ExpiryOption
unfolding expiry_options is_days is_ninety ninety_or_last
default_expiry_choice policy =
    let options = filter is_days (expiry_options policy) in
    ninety_or_last (find is_ninety options) options

pub data ExpiryError : Type 0 where
  expiry_required pick_a_date invalid_date invalid_expiry in_the_past : ExpiryError
  too_long : (max_token_lifetime_days : ℕ) → ExpiryError

pub data ExpiryResolution : Type 0 where
  expires : Option ℕ → ExpiryResolution
  refused : ExpiryError → ExpiryResolution

abbrev pub over_cap : Option ℕ → ℕ → Bool
over_cap none lifetime = false
over_cap (some c) lifetime = ltb (c * day_ms + minute_ms) lifetime

-- The greatest time of a `Date`; a later one is the Invalid Date.
abbrev pub max_time : ℕ
max_time = 8_640_000_000_000_000

-- The two last tests, on the date that was chosen. The time of an Invalid Date is `NaN`, which passes
-- both of them.
check_date : TokenExpiryPolicy → ℕ → ℕ → ExpiryResolution
check_date policy now expires_at =
    if ltb max_time expires_at
    then expires (some expires_at)
    else if leb expires_at now
    then refused in_the_past
    else if over_cap (cap policy) (expires_at - now)
    then refused (too_long policy.max_token_lifetime_days)
    else expires (some expires_at)

check_custom : TokenExpiryPolicy → ℕ → Option ℕ → ExpiryResolution
unfolding check_date
check_custom policy now none = refused invalid_date
check_custom policy now (some at) = check_date policy now at

check_days : TokenExpiryPolicy → ℕ → Option ℕ → ExpiryResolution
unfolding check_date
check_days policy now none = refused invalid_expiry
check_days policy now (some days) = check_date policy now (now + days * day_ms)

-- `Math.max(1, Math.round(…))` of the days between creation and expiry.
abbrev pub lifetime_days : ℕ → ℕ → ℕ
lifetime_days created_at expires_at =
    max 1 (((expires_at - created_at) * 2 + day_ms) / (2 * day_ms))

abbrev pub capped : Option ℕ → ℕ → ℕ
capped none d = d
capped (some c) d = min d c

abbrev pub or_year : Option ℕ → ℕ
or_year none = 365
or_year (some c) = c

-- `number` is the positive integer that `Number` reads in a text, if it is one; `date_value` is the
-- time of a date, a bare one at the end of its day.
module _ (number date_value : Str → Option ℕ) where
  unfoldable pub resolve_expiry : Str → Str → TokenExpiryPolicy → ℕ → ExpiryResolution
  unfolding check_custom check_days
  resolve_expiry choice custom_date policy now =
      let c = lower (trim choice) in
      if is_empty c || str_eq c (str "never")
      then (if policy.require_token_expiry then refused expiry_required else expires none)
      else if str_eq c (str "custom")
      then (if is_empty (trim custom_date)
          then refused pick_a_date
          else check_custom policy now (date_value (trim custom_date)))
      else check_days policy now (number c)

  -- `days_text` is `String` of a number.
  pub replacement_expiry :
      (days_text : ℕ → Str) → ℕ → Option ℕ → TokenExpiryPolicy → ℕ → ExpiryResolution
  replacement_expiry days_text created_at none policy now =
      if not policy.require_token_expiry
      then expires none
      else resolve_expiry (days_text (or_year (cap policy))) [] policy now
  replacement_expiry days_text created_at (some expires_at) policy now =
      resolve_expiry (days_text (capped (cap policy) (lifetime_days created_at expires_at))) []
        policy now

pub data ExpiryState : Type 0 where
  never : ExpiryState
  expired : (days_ago : ℕ) → ExpiryState
  expiring active : (days_left : ℕ) → ExpiryState

-- The days left are rounded up.
unfoldable pub expiry_state : Option ℕ → ℕ → ℕ → ExpiryState
expiry_state none now warn_days = ExpiryState.never
expiry_state (some at) now warn_days =
    if leb at now
    then expired ((now - at) / day_ms)
    else let days_left = (at - now + (day_ms - 1)) / day_ms in
      if leb days_left warn_days then expiring days_left else active days_left

unfoldable pub is_expired : Option ℕ → ℕ → Bool
is_expired none now = false
is_expired (some at) now = leb at now
