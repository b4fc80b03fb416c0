-- ===== src/LoginThrottle.antt =====
-- web/src/lib/login-throttle.ts: the counters of failed sign-ins, as the rows of `login_attempts`.
-- A time is its number of milliseconds; a call reads the clock once.
pub mod Counting
pub mod Reporting
pub mod Locking
pub mod Locks
use chicoree.Prelude.{
  ℕ, ◌+◌, ◌-◌, ◌*◌, Bool, true, false, not, ◌&&◌, Option, none, some, List, [], ◌∷◌, ◌++◌, ltb, leb,
  max, if◌then◌else◌, Str, str, str_eq, includes, is_empty, trim, lower, filter,
}
use chicoree.Pagination.{ceil_div}

abbrev minute_ms : ℕ
minute_ms = 60_000

abbrev pub day_ms : ℕ
day_ms = 86_400_000

abbrev pub login_window : ℕ
login_window = 15 * minute_ms

abbrev pub login_lock_time : ℕ
login_lock_time = 15 * minute_ms

abbrev account_max_failures : ℕ
account_max_failures = 5

abbrev ip_max_failures : ℕ
ip_max_failures = 30

pub record Attempt : Type 0 where
  pub key : Str
  pub failures : ℕ
  pub window_start : ℕ
  pub locked_until : Option ℕ
  pub updated_at : ℕ

unfoldable pub account_key : Str → Str
unfolding trim lower
account_key email = str "account:" ++ lower (trim email)

unfoldable pub ip_key : Option Str → Option Str
ip_key none = none
ip_key (some ip) = if is_empty ip then none else some (str "ip:" ++ ip)

pub record Lock : Type 0 where
  pub locked_until : ℕ
  pub retry_after_seconds : ℕ

unfoldable pub present_keys : List (Option Str) → List Str
present_keys [] = []
present_keys (none ∷ keys) = present_keys keys
present_keys (some k ∷ keys) = let rest = present_keys keys in if is_empty k then rest else k ∷ rest

unexpired : ℕ → Option ℕ → Option ℕ
unexpired now none = none
unexpired now (some u) = if ltb now u then some u else none

pub later : Option ℕ → Option ℕ → Option ℕ
later none o = o
later (some a) none = some a
later (some a) (some b) = some (max a b)

-- The query: the latest lock among the rows of these keys.
latest_lock : List Str → ℕ → List Attempt → Option ℕ
unfolding unexpired later
latest_lock keys now [] = none
latest_lock keys now (r ∷ rows) =
    later (if includes keys r.key then unexpired now r.locked_until else none)
      (latest_lock keys now rows)

as_lock : ℕ → Option ℕ → Option Lock
as_lock now none = none
as_lock now (some until) =
    some
      (record { locked_until = until; retry_after_seconds = max 1 (ceil_div (until - now) 1000) })

unfoldable pub login_lock : List (Option Str) → ℕ → List Attempt → Option Lock
unfolding latest_lock as_lock present_keys
login_lock keys now rows = as_lock now (latest_lock (present_keys keys) now rows)

unfoldable pub row_of : Str → List Attempt → Option Attempt
row_of key [] = none
row_of key (r ∷ rows) = let rest = row_of key rows in if str_eq r.key key then some r else rest

-- `INSERT … ON CONFLICT (key) DO UPDATE`
pub count_row : Str → ℕ → Option Attempt → Attempt
count_row key now none = record {
  key = key;
  failures = 1;
  window_start = now;
  locked_until = none;
  updated_at = now;
}
count_row key now (some r) =
    let stale = ltb (r.window_start + login_window) now in
    record r {
      failures = if stale then 1 else r.failures + 1;
      window_start = if stale then now else r.window_start;
      updated_at = now;
    }

pub count_failure : Str → ℕ → List Attempt → List Attempt
unfolding count_row
count_failure key now [] = count_row key now none ∷ []
count_failure key now (r ∷ rows) =
    let rest = count_failure key now rows in
    if str_eq r.key key then count_row key now (some r) ∷ rows else r ∷ rest

pub lock_row : Str → ℕ → List Attempt → List Attempt
lock_row key now [] = []
lock_row key now (r ∷ rows) =
    let rest = lock_row key now rows in
    if str_eq r.key key
    then record r { locked_until = some (now + login_lock_time); failures = 0; window_start = now }
      ∷ rest
    else r ∷ rest

-- `RETURNING failures`
pub failures_of : Option Attempt → ℕ
failures_of none = 0
failures_of (some r) = r.failures

pub record Entry : Type 0 where
  pub key : Option Str
  pub most : ℕ

pub record_key : ℕ → ℕ → Str → Option ℕ × List Attempt → Option ℕ × List Attempt
unfolding count_failure lock_row failures_of row_of later
record_key now most key (locked, rows) =
    let counted = count_failure key now rows in
    if leb most (failures_of (row_of key counted))
    then (later locked (some (now + login_lock_time)), lock_row key now counted)
    else (locked, counted)

-- One round of the loop.
pub record_entry : ℕ → Entry → Option ℕ × List Attempt → Option ℕ × List Attempt
unfolding record_key
record_entry now e st = elim e.key [
  | none ↦ st
  | some k ↦ if is_empty k then st else record_key now e.most k st
]

pub record_entries : ℕ → List Entry → Option ℕ × List Attempt → Option ℕ × List Attempt
unfolding record_entry
record_entries now [] st = st
record_entries now (e ∷ es) st = record_entries now es (record_entry now e st)

-- `sweep` is the outcome of `Math.random() < 0.05`.
unfoldable pub record_login_failure :
    (sweep : Bool) → List Entry → ℕ → List Attempt → Option ℕ × List Attempt
unfolding record_entries
record_login_failure sweep entries now rows =
    let done = record_entries now entries (none, rows) in
    (done.0, if sweep then filter (λ r. not (ltb (r.updated_at + day_ms) now)) done.1 else done.1)

unfoldable pub clear_login_failures : Option Str → List Attempt → List Attempt
clear_login_failures none rows = rows
clear_login_failures (some k) rows =
    if is_empty k then rows else filter (λ r. not (str_eq r.key k)) rows

-- The number of minutes that the message names.
unfoldable pub lock_minutes : ℕ → ℕ
lock_minutes retry_after_seconds = max 1 (ceil_div retry_after_seconds 60)
