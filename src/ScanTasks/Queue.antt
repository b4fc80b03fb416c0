-- ===== src/ScanTasks/Queue.antt =====
-- The rows of `scan_tasks` and `scan_workers` (web/src/db/scanning-schema.ts), and the constants of
-- web/src/lib/scan-tasks.ts.
use chicoree.Prelude.{ℕ, ◌*◌, Bool, true, false, Option, none, some, List, ltb, Str}
use chicoree.Scans.{Scan}

pub data TaskStatus : Type 0 where
  queued leased done failed : TaskStatus

pub record Task : Type 0 where
  pub id : Str
  pub digest : Str
  pub repository_id : Option Str
  pub repository_path : Str
  pub status : TaskStatus
  pub attempts : ℕ
  pub available_at : ℕ
  pub leased_by : Option Str
  pub lease_until : Option ℕ
  pub last_error : Option Str
  pub created_at : ℕ
  pub updated_at : ℕ

pub record Worker : Type 0 where
  pub name : Str
  pub running : ℕ
  pub completed : ℕ
  pub failed : ℕ
  pub last_error : Option Str
  pub last_seen_at : ℕ

pub record Tables : Type 0 where
  pub tasks : List Task
  pub workers : List Worker
  pub scans : List Scan

abbrev pub second_ms : ℕ
second_ms = 1000

abbrev pub minute_ms : ℕ
minute_ms = 60_000

abbrev pub day_ms : ℕ
day_ms = 86_400_000

abbrev pub worker_online_time : ℕ
worker_online_time = 120 * second_ms

abbrev pub lease_time : ℕ
lease_time = 20 * minute_ms

abbrev pub max_attempts : ℕ
max_attempts = 3

abbrev pub inline_per_tick : ℕ
inline_per_tick = 3

abbrev pub is_queued : TaskStatus → Bool
is_queued queued = true
is_queued leased = false
is_queued done = false
is_queued failed = false

abbrev pub is_leased : TaskStatus → Bool
is_leased queued = false
is_leased leased = true
is_leased done = false
is_leased failed = false

-- `lease_until < now()`, which `NULL` does not fulfil.
abbrev pub before : Option ℕ → ℕ → Bool
before none now = false
before (some until) now = ltb until now
