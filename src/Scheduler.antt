-- ===== src/Scheduler.antt =====
-- web/src/lib/scheduler.ts with `runJob` of web/src/lib/jobs.ts: one pass over the schedules that are
-- due, on the rows of `job_schedules` and `job_runs`. The pass reads the clock once.
mod Rows
pub mod Ended
pub mod Pass
pub mod Single
pub use Rows.*
use chicoree.Prelude.{
  ℕ, ◌+◌, ◌*◌, Bool, true, false, ◌&&◌, Option, none, some, get_or, List, [], ◌∷◌, ltb, leb, any,
  filter, map, if◌then◌else◌, Str, str, str_eq, ◌++◌,
}

abbrev stuck_after : ℕ
stuck_after = 6 * 3_600_000

abbrev pub is_active : RunStatus → Bool
is_active running = true
is_active succeeded = false
is_active failed = false

unfoldable pub runs_of : Str → List Run → List Run
runs_of job runs = filter (λ (r : Run). str_eq r.job job) runs

-- Whether there is a run of the job that has not ended.
unfoldable pub is_running : Str → List Run → Bool
unfolding runs_of
is_running job runs = any (λ (r : Run). is_active r.status) (runs_of job runs)

unfoldable pub is_due : ℕ → Schedule → Bool
is_due now s = s.enabled && (elim s.next_run_at [ none ↦ true | some at ↦ leb at now ])

-- `UPDATE job_schedules SET … WHERE job = …`
unfoldable pub set_schedules : Str → (Schedule → Schedule) → List Schedule → List Schedule
set_schedules job change [] = []
set_schedules job change (s ∷ ss) =
    (if str_eq s.job job then change s else s) ∷ set_schedules job change ss

-- `UPDATE job_runs SET … WHERE id = …`
unfoldable pub set_runs : Str → (Run → Run) → List Run → List Run
set_runs id change [] = []
set_runs id change (r ∷ rs) = (if str_eq r.id id then change r else r) ∷ set_runs id change rs

value_of : Str → List (Str × Str) → Option Str
value_of name [] = none
value_of name ((key, value) ∷ rest) =
    let further = value_of name rest in if str_eq key name then some value else further

-- `params[p.name] ?? p.default`
merged : List (Str × Str) → List (Str × Str) → List (Str × Str)
unfolding value_of
merged params [] = []
merged params ((name, default) ∷ rest) =
    (name, get_or (value_of name params) default) ∷ merged params rest

pub end_run : Ending → Run → Run
end_run (returns result at) r = record r {
  status = succeeded;
  result = some result;
  finished_at = some at;
}
end_run (throws message at) r = record r {
  status = failed;
  error = some message;
  finished_at = some at;
}

pub status_word : Ending → Str
status_word (returns result at) = str "succeeded"
status_word (throws message at) = str "failed"

pub failure_notice : Str → Str → Str → Ending → List Notice
failure_notice job id triggered_by (returns result at) = []
failure_notice job id triggered_by (throws message at) =
    record { job = job; run_id = id; error = message; triggered_by = triggered_by } ∷ []

unfoldable pub close_stuck : ℕ → Run → Run
close_stuck now r =
    if is_active r.status && ltb (r.started_at + stuck_after) now
    then record r {
      status = failed;
      error = some (str "marked failed by the scheduler: still running after 6 hours");
      finished_at = some now;
    }
    else r

stuck_notices : ℕ → List Run → List Notice
stuck_notices now [] = []
stuck_notices now (r ∷ rs) =
    let rest = stuck_notices now rs in
    if is_active r.status && ltb (r.started_at + stuck_after) now
    then record {
      job = r.job;
      run_id = r.id;
      error = str "marked failed by the scheduler: still running after 6 hours";
      triggered_by = r.triggered_by;
    }
      ∷ rest
    else rest

unfoldable pub fail_stuck_runs : ℕ → Tables → Tables
unfolding close_stuck stuck_notices
fail_stuck_runs now t = record t {
  runs = map (close_stuck now) t.runs;
  notices = stuck_notices now t.runs ++ t.notices;
}

module _ (host : Host) (now : ℕ) where
  -- The run that `runJob` inserts.
  pub new_run : Str → List (Str × Str) → Str → List Run → Run
  new_run job params triggered_by runs = record {
    id = host.new_id runs;
    job = job;
    status = running;
    params = params;
    result = none;
    error = none;
    triggered_by = triggered_by;
    started_at = host.clock runs;
    finished_at = none;
  }

  -- `runJob` of a job that exists: the status that it returns, and the tables.
  unfoldable pub run_job : Str → List (Str × Str) → Str → Tables → Str × Tables
  unfolding set_runs end_run status_word failure_notice new_run
  run_job job params triggered_by t =
      let id = host.new_id t.runs in
      let ending = host.perform job params (host.clock t.runs) in
      (
        status_word ending,
        record t {
          runs = set_runs id (end_run ending) (new_run job params triggered_by t.runs ∷ t.runs);
          notices = failure_notice job id triggered_by ending ++ t.notices;
        },
      )

  pub set_job : Str → (Schedule → Schedule) → Tables → Tables
  unfolding set_schedules
  set_job job change t = record t { schedules = set_schedules job change t.schedules }

  -- Behind `runJob`.
  pub report_run : Str → Str × Tables → Tables
  unfolding set_job
  report_run job (status, t) = set_job job (λ s. record s { last_status = some status }) t

  pub start_job : Schedule → List (Str × Str) → ℕ → Tables → Tables
  unfolding run_job set_job report_run is_running str_eq merged
  start_job schedule params next t =
      if is_running schedule.job t.runs
      then set_job schedule.job
          (λ s. record s { last_status = some (str "skipped: already running") }) t
      else report_run schedule.job (
          run_job schedule.job (merged schedule.params params) (str "schedule") (
            set_job schedule.job (λ s. record s { last_run_at = some now; next_run_at = some next })
              t))

  pub known_job : Schedule → Option (List (Str × Str)) → ℕ → Tables → Tables
  unfolding start_job set_job
  known_job schedule none next t =
      set_job schedule.job
        (λ s. record s { next_run_at = some next; last_status = some (str "skipped: unknown job") })
        t
  known_job schedule (some params) next t = start_job schedule params next t

  pub slotted : Schedule → Option ℕ → ℕ → Tables → Tables
  unfolding known_job set_job
  slotted schedule none next t = set_job schedule.job (λ s. record s { next_run_at = some next }) t
  slotted schedule (some at) next t = known_job schedule (host.job_params schedule.job) next t

  pub at_next : Schedule → Option ℕ → Tables → Tables
  unfolding slotted set_job
  at_next schedule none t =
      set_job schedule.job
        (λ s. record s { enabled = false; last_status = some (str "disabled: invalid cron") }) t
  at_next schedule (some next) t = slotted schedule schedule.next_run_at next t

  -- The body of the loop.
  pub run_schedule : Schedule → Tables → Tables
  unfolding at_next
  run_schedule schedule t = at_next schedule (host.next_run schedule.cron schedule.timezone now) t

  pub run_each : List Schedule → Tables → Tables
  unfolding run_schedule
  run_each [] t = t
  run_each (s ∷ ss) t = run_each ss (run_schedule s t)

  unfoldable pub run_due : Tables → Tables
  unfolding run_each is_due
  run_due t = run_each (filter (is_due now) t.schedules) t
