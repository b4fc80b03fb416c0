-- ===== src/Tests/Tokens.antt =====
-- Expiries and restrictions of tokens.
use chicoree.Prelude.{
  ℕ, ◌+◌, ◌-◌, ◌*◌, ◌/◌, ◌%◌, ◌≡◌, ◌≢◌, refl, true, Option, none, some, List, [], ◌∷◌, Str, str,
  trim, lower, str_eq,
}
use chicoree.TokenPolicy.{Target}
use chicoree.TokenPolicy.Restriction.{named}
use chicoree.TokenPolicy.Lifetime.{
  TokenExpiryPolicy, cap, capped, lifetime_days, expires, refused, too_long, expiry_required,
  resolve_expiry, replacement_expiry, expiry_state, expiring, expiry_options, default_expiry_choice,
  preset, custom, day_ms,
}
use chicoree.TokenPolicy.Lifetime.Bounds.{
  IsAllowed, ReadsBack, resolve_expiry-IsAllowed, replacement_expiry-lifetime,
}

-- Numbers of up to two digits, and no dates.
two_digits : ℕ → Str
two_digits n = (48 + n / 10) ∷ (48 + n % 10) ∷ []

number : Str → Option ℕ
number (a ∷ b ∷ []) = some ((a - 48) * 10 + (b - 48))
number s = none

no_date : Str → Option ℕ
no_date s = none

abbrev month : TokenExpiryPolicy
month = record { max_token_lifetime_days = 30; require_token_expiry = true }

expiry : Unit {0}
unfolding resolve_expiry trim lower str_eq number two_digits no_date
expiry = tt

resolve_tests :
    (resolve_expiry number no_date (str " 30 ") [] month 1000 ≡ expires (some (1000 + 30 * day_ms)))
    × (resolve_expiry number no_date (str "90") [] month 1000 ≡ refused (too_long 30))
    × (resolve_expiry number no_date (str "Never") [] month 1000 ≡ refused expiry_required)
unfolding expiry
resolve_tests = (refl, refl, refl)

-- So many days lead to an Invalid Date, which is accepted under the policy of a month.
billion : Str → Option ℕ
billion s = some 1_000_000_000

test_invalid_date :
    resolve_expiry billion no_date (str "1000000000") [] month 1000
    ≡ expires (some (1000 + 1_000_000_000 * day_ms))
unfolding resolve_expiry billion trim lower str_eq
test_invalid_date = refl

options_test :
    (expiry_options month ≡ preset 7 ∷ preset 30 ∷ custom ∷ [])
    × (default_expiry_choice month ≡ preset 30)
unfolding expiry_options default_expiry_choice
options_test = (refl, refl)

resolve_expiry-IsAllowed_example : IsAllowed month 1000 (some (1000 + 30 * day_ms))
resolve_expiry-IsAllowed_example =
    resolve_expiry-IsAllowed number no_date (str " 30 ") [] month 1000 (some (1000 + 30 * day_ms))
      resolve_tests.0

thirty-ReadsBack :
    ReadsBack number no_date two_digits (capped (cap month) (lifetime_days 0 (90 * day_ms)))
unfolding expiry
thirty-ReadsBack = record { word = refl; not_never = refl; not_custom = refl; read = refl }

replacement_expiry-lifetime_example :
    replacement_expiry number no_date two_digits 0 (some (90 * day_ms)) month 1000
    ≡ expires (some (1000 + capped (cap month) (lifetime_days 0 (90 * day_ms)) * day_ms))
replacement_expiry-lifetime_example =
    replacement_expiry-lifetime number no_date two_digits 0 (90 * day_ms) month 1000
      thirty-ReadsBack

state_test : expiry_state (some (3 * day_ms)) 5 7 ≡ expiring 3
unfolding expiry_state
state_test = refl

abbrev ids : List Str
ids = str "r1" ∷ str "" ∷ str "r1" ∷ []

abbrev target : Target
target = record { organization_id = str "o"; repository_id = some (str "r1") }

ids-named : named ids ≢ []
ids-named = cc
