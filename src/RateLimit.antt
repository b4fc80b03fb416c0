-- ===== src/RateLimit.antt =====
-- web/src/lib/api/rate-limit.ts: requests to the REST API in fixed windows, as the rows of
-- `rate_limit_counters`. The limits are those that the settings hold, parsed; the hourly pruning of
-- rows of ended windows is left out. The child `Syntax` parses and prints limits.
pub mod Syntax
pub mod Windows
use chicoree.Prelude.{
  ℕ, ◌+◌, ◌-◌, ◌*◌, ◌/◌, Bool, true, false, Option, none, some, List, [], ◌∷◌, ◌++◌, ltb, ◌==◌, max,
  get_or, if◌then◌else◌, Str, str, str_eq,
}

pub record RateLimit : Type 0 where
  pub count : ℕ
  pub window_seconds : ℕ

pub record RateLimitState : Type 0 where
  pub limit : RateLimit
  pub count : ℕ
  pub reset_at : ℕ

pub data ApiCaller : Type 0 where
  user : (id : Str) (is_admin : Bool) → ApiCaller
  sa : (id : Str) → ApiCaller
  anonymous : ApiCaller

unfoldable pub key_for : ApiCaller → Option Str → Str
key_for (user id is_admin) ip = str "api|user:" ++ id
key_for (sa id) ip = str "api|sa:" ++ id
key_for anonymous ip = str "api|ip:" ++ get_or ip (str "unknown")

pub record Counter : Type 0 where
  pub key : Str
  pub window_start : ℕ
  pub count : ℕ

-- In seconds, for a time in milliseconds.
unfoldable pub window_start_of : RateLimit → ℕ → ℕ
window_start_of limit now = now / 1000 / limit.window_seconds * limit.window_seconds

pub counted : ℕ → Counter → Counter
counted start r = record r {
  count = if r.window_start == start then r.count + 1 else 1;
  window_start = start;
}

-- `INSERT … ON CONFLICT (key) DO UPDATE`
count_request : Str → ℕ → List Counter → List Counter
unfolding counted
count_request key start [] = record { key = key; window_start = start; count = 1 } ∷ []
count_request key start (r ∷ rows) =
    let rest = count_request key start rows in
    if str_eq r.key key then counted start r ∷ rows else r ∷ rest

unfoldable pub counter_of : Str → List Counter → Option Counter
counter_of key [] = none
counter_of key (r ∷ rows) =
    let rest = counter_of key rows in if str_eq r.key key then some r else rest

-- `RETURNING count`
count_of : Option Counter → ℕ
count_of none = 1
count_of (some r) = r.count

-- What a request meets: no limit, the state of its window, or the error 429.
pub data Outcome : Type 0 where
  unlimited : Outcome
  allowed : RateLimitState → Outcome
  rate_limited : RateLimitState → (retry_after : ℕ) → Outcome

judge : ℕ → RateLimitState → Outcome
judge now state =
    if ltb state.limit.count state.count
    then rate_limited state (max 1 (state.reset_at - now / 1000))
    else allowed state

unfoldable pub count_against : RateLimit → Str → ℕ → List Counter → Outcome × List Counter
unfolding count_request counter_of count_of judge
count_against limit key now rows =
    let start = window_start_of limit now in
    let after = count_request key start rows in
    (
      judge now (record {
        limit = limit;
        count = count_of (counter_of key after);
        reset_at = start + limit.window_seconds;
      }),
      after,
    )

-- Instance administrators are never limited.
abbrev pub is_administrator : ApiCaller → Bool
is_administrator (user id is_admin) = is_admin
is_administrator (sa id) = false
is_administrator anonymous = false

abbrev pub limit_for :
    ApiCaller → (for_anonymous for_authenticated : Option RateLimit) → Option RateLimit
limit_for anonymous for_anonymous for_authenticated = for_anonymous
limit_for (sa id) for_anonymous for_authenticated = for_authenticated
limit_for (user id is_admin) for_anonymous for_authenticated = for_authenticated

under_limit : Option RateLimit → Str → ℕ → List Counter → Outcome × List Counter
under_limit none key now rows = (unlimited, rows)
under_limit (some limit) key now rows = count_against limit key now rows

unfoldable pub check_api_rate_limit :
    ApiCaller
    → (ip : Option Str) → (for_anonymous for_authenticated : Option RateLimit) → ℕ
    → List Counter
    → Outcome × List Counter
unfolding under_limit
check_api_rate_limit c ip for_anonymous for_authenticated now rows =
    if is_administrator c
    then (unlimited, rows)
    else under_limit (limit_for c for_anonymous for_authenticated) (key_for c ip) now rows

-- `X-RateLimit-Remaining`
unfoldable pub remaining : RateLimitState → ℕ
remaining state = state.limit.count - state.count
