-- ===== src/Scheduler/Rows.antt =====
-- The rows of `job_schedules` and `job_runs` (web/src/db/registry-schema.ts), and what a pass calls.
use chicoree.Prelude.{ℕ, Bool, Option, List, Str}

pub record Schedule : Type 0 where
  pub job : Str
  pub cron : Str
  pub params : List (Str × Str)
  pub enabled : Bool
  pub timezone : Str
  pub last_run_at : Option ℕ
  pub next_run_at : Option ℕ
  pub last_status : Option Str
  pub updated_by : Option Str
  pub updated_at : ℕ

pub data RunStatus : Type 0 where
  running succeeded failed : RunStatus

pub record Run : Type 0 where
  pub id : Str
  pub job : Str
  pub status : RunStatus
  pub params : List (Str × Str)
  pub result : Option Str
  pub error : Option Str
  pub triggered_by : Str
  pub started_at : ℕ
  pub finished_at : Option ℕ

-- How the body of a job ends, with the time that it is by then.
pub data Ending : Type 0 where
  returns : (result : Str) → (at : ℕ) → Ending
  throws : (message : Str) → (at : ℕ) → Ending

-- The message "job.failed".
pub record Notice : Type 0 where
  pub job : Str
  pub run_id : Str
  pub error : Str
  pub triggered_by : Str

pub record Tables : Type 0 where
  pub schedules : List Schedule
  pub runs : List Run
  pub notices : List Notice

-- What the pass calls: the parser of cron expressions, which may throw, and the jobs, with the names
-- and defaults of their parameters; the id and the time that the database gives to a new run. The jobs
-- leave these tables alone.
pub record Host : Type 0 where
  pub next_run : (cron timezone : Str) → ℕ → Option ℕ
  pub job_params : Str → Option (List (Str × Str))
  pub perform : (job : Str) → List (Str × Str) → ℕ → Ending
  pub new_id : List Run → Str
  pub clock : List Run → ℕ
