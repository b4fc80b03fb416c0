-- ===== src/Tests/Schedules.antt =====
-- A pass over three schedules: one is due, one is running, one cannot be read.
use chicoree.Prelude.{
  ◌≤◌, map, All-map, length-append, ℕ, ◌+◌, ◌<◌, ◌≡◌, ◌≢◌, refl, ap, true, false, Option, none,
  some, List, [], ◌∷◌, ◌++◌, All, length, Str, str, str_eq, if◌then◌else◌, arith,
}
use chicoree.Scheduler.{
  Schedule, Run, running, returns, Host, Tables, runs_of, is_running, is_due, set_schedules,
  set_runs, fail_stuck_runs, close_stuck, run_job, run_due,
}
use chicoree.Scheduler.Pass.{IsSettled, run_due-IsSettled}
use chicoree.Scheduler.Single.{run_due-runs_of}

abbrev schedule : Str → Str → Schedule
schedule name cron = record {
  job = name;
  cron = cron;
  params = [];
  enabled = true;
  timezone = str "UTC";
  last_run_at = none;
  next_run_at = some 1_000;
  last_status = none;
  updated_by = none;
  updated_at = 0;
}

-- Longer than the id of any run.
unfoldable fresh_id : List Run → Str
fresh_id [] = b'r' ∷ []
fresh_id (r ∷ rs) = b'r' ∷ (r.id ++ fresh_id rs)

unfoldable hourly : Str → Str → ℕ → Option ℕ
unfolding str_eq
hourly cron timezone now = if str_eq cron (str "0 * * * *") then some (now + 3_600_000) else none

abbrev host : Host
host = record {
  next_run = hourly;
  job_params = λ job. some [];
  perform = λ job params at. returns (str "done") (at + 5);
  new_id = fresh_id;
  clock = λ runs. 2_001;
}

abbrev gc_run : Run
gc_run = record {
  id = str "g1";
  job = str "gc";
  status = running;
  params = [];
  result = none;
  error = none;
  triggered_by = str "schedule";
  started_at = 500;
  finished_at = none;
}

abbrev tables : Tables
tables = record {
  schedules =
      schedule (str "retention") (str "0 * * * *")
      ∷ schedule (str "gc") (str "0 * * * *")
      ∷ schedule (str "rescan") (str "often")
      ∷ [];
  runs = gc_run ∷ [];
  notices = [];
}

hourly-later : (cron timezone : Str) (at : ℕ) → hourly cron timezone 2_000 ≡ some at → 2_000 < at
unfolding hourly
hourly-later cron timezone at h = ground (arith, h)

longer :
    (n : ℕ) (runs : List Run) → length (fresh_id runs) ≤ n → All (λ (r : Run). length r.id < n) runs
unfolding fresh_id
longer n [] h = tt
longer n (r ∷ rs) h = (
  omega (arith, h, length-append r.id (fresh_id rs)),
  longer n rs (omega (arith, h, length-append r.id (fresh_id rs))),
)

shorter-apart : (id : Str) (r : Run) → length r.id < length id → r.id ≢ id
shorter-apart id r h e = absurd (omega (arith, h, ap length e))

fresh_id-apart : (runs : List Run) → All (λ (r : Run). r.id ≢ fresh_id runs) runs
fresh_id-apart runs =
    All-map (λ (r : Run). length r.id < length (fresh_id runs)) (λ (r : Run). r.id ≢ fresh_id runs)
      runs (shorter-apart (fresh_id runs)) (longer (length (fresh_id runs)) runs (omega arith))

-- The job that is due has run, the one that goes on is left, and the third schedule is disabled.
test_statuses :
    map (λ (s : Schedule). s.last_status) (run_due host 2_000 tables).schedules
    ≡ some (str "succeeded")
      ∷ some (str "skipped: already running")
      ∷ some (str "disabled: invalid cron")
      ∷ []
unfolding run_due is_running runs_of is_due set_schedules set_runs hourly run_job fresh_id str_eq
test_statuses = refl

test_stuck : is_running (str "gc") (fail_stuck_runs 21_600_501 tables).runs ≡ false
unfolding fail_stuck_runs is_running runs_of close_stuck str_eq
test_stuck = refl

run_due-IsSettled_example :
    All (IsSettled 2_000 (gc_run ∷ [])) (run_due host 2_000 tables).schedules
run_due-IsSettled_example = run_due-IsSettled host 2_000 tables hourly-later

run_due-runs_of_example :
    runs_of (str "gc") (run_due host 2_000 tables).runs ≡ runs_of (str "gc") tables.runs
unfolding is_running runs_of str_eq
run_due-runs_of_example = run_due-runs_of host 2_000 (str "gc") tables fresh_id-apart refl
