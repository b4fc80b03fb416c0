-- ===== src/Scheduler/Single.antt =====
-- A job that is running is not started again.
use chicoree.Prelude.{
  ℕ, ◌≡◌, ◌≢◌, refl, sym, ap, ◌∙◌, Bool, true, false, Option, none, some, List, [], ◌∷◌, any,
  filter, All, if◌then◌else◌, if-cases, Str, str, str_eq, differs, true-false,
}
use chicoree.Scheduler.{
  Schedule, Run, Ending, returns, throws, Host, Tables, is_active, runs_of, is_running, is_due,
  set_runs, end_run, new_run, run_job, set_job, report_run, start_job, known_job, slotted, at_next,
  run_schedule, run_each, run_due, merged,
}

set_runs-fresh :
    (id : Str) (change : Run → Run) (rs : List Run)
    → All (λ (r : Run). r.id ≢ id) rs
    → set_runs id change rs ≡ rs
unfolding set_runs
set_runs-fresh id change [] h = refl
set_runs-fresh id change (r ∷ rs) h =
    ap (λ (x : Bool). (if x then change r else r) ∷ set_runs id change rs) (differs r.id id h.0)
    ∙ ap (λ rest. r ∷ rest) (set_runs-fresh id change rs h.1)

end_run-job : (e : Ending) (r : Run) → (end_run e r).job ≡ r.job
unfolding end_run
end_run-job (returns result at) r = refl
end_run-job (throws message at) r = refl

skipped :
    (job : Str) (r : Run) (rs : List Run)
    → str_eq r.job job ≡ false
    → runs_of job (r ∷ rs) ≡ runs_of job rs
unfolding runs_of
skipped job r rs e = rw (e) refl

module _ (host : Host) (now : ℕ) (job : Str) where
  -- Another job's run, inserted and ended.
  run_job-others :
      (other : Str) (params : List (Str × Str)) (by : Str) (t : Tables)
      → ((runs : List Run) → All (λ (r : Run). r.id ≢ host.new_id runs) runs)
      → str_eq other job ≡ false
      → runs_of job (run_job host now other params by t).1.runs ≡ runs_of job t.runs
  unfolding run_job new_run set_runs
  run_job-others other params by t fresh apart =
      let e = host.perform other params (host.clock t.runs) in
      let r = new_run host now other params by t.runs in
      let r' = if str_eq r.id r.id then end_run e r else r in
      skipped job r' (set_runs r.id (end_run e) t.runs) (
        if-cases (λ (x : Run). str_eq x.job job ≡ false) (str_eq r.id r.id)
          (λ _. ap (λ j. str_eq j job) (end_run-job e r) ∙ apart) (λ _. apart))
      ∙ ap (runs_of job) (set_runs-fresh r.id (end_run e) t.runs (fresh t.runs))

  module _ (fresh : (runs : List Run) → All (λ (r : Run). r.id ≢ host.new_id runs) runs)
      (d : Schedule) where
    Keeps : Tables → Tables → Type 0
    Keeps t after = runs_of job after.runs ≡ runs_of job t.runs

    start_job-Keeps :
        (params : List (Str × Str)) (next : ℕ) (t : Tables)
        → is_running job t.runs ≡ true
        → Keeps t (start_job host now d params next t)
    unfolding Keeps start_job report_run set_job
    start_job-Keeps params next t h =
        if-cases (Keeps t) (is_running d.job t.runs) (λ _. refl)
          (λ idle.
            run_job-others d.job (merged d.params params) (str "schedule")
              (set_job host now d.job
                (λ s. record s { last_run_at = some now; next_run_at = some next }) t)
              fresh
              (differs d.job job
                (λ e. true-false (sym h ∙ sym (ap (λ j. is_running j t.runs) e) ∙ idle))))

    known_job-Keeps :
        (params : Option (List (Str × Str))) (next : ℕ) (t : Tables)
        → is_running job t.runs ≡ true
        → Keeps t (known_job host now d params next t)
    unfolding Keeps known_job set_job
    known_job-Keeps none next t h = refl
    known_job-Keeps (some params) next t h = start_job-Keeps params next t h

    slotted-Keeps :
        (at : Option ℕ) (next : ℕ) (t : Tables)
        → is_running job t.runs ≡ true
        → Keeps t (slotted host now d at next t)
    unfolding Keeps slotted set_job
    slotted-Keeps none next t h = refl
    slotted-Keeps (some at) next t h = known_job-Keeps (host.job_params d.job) next t h

    at_next-Keeps :
        (next : Option ℕ) (t : Tables)
        → is_running job t.runs ≡ true
        → Keeps t (at_next host now d next t)
    unfolding Keeps at_next set_job
    at_next-Keeps none t h = refl
    at_next-Keeps (some next) t h = slotted-Keeps d.next_run_at next t h

  run_each-Keeps :
      (ds : List Schedule) (t : Tables)
      → ((runs : List Run) → All (λ (r : Run). r.id ≢ host.new_id runs) runs)
      → is_running job t.runs ≡ true
      → runs_of job (run_each host now ds t).runs ≡ runs_of job t.runs
  unfolding run_each run_schedule is_running Keeps
  run_each-Keeps [] t fresh h = refl
  run_each-Keeps (d ∷ ds) t fresh h =
      let step = at_next-Keeps fresh d (host.next_run d.cron d.timezone now) t h in
      run_each-Keeps ds (run_schedule host now d t) fresh
        (ap (λ (rs : List Run). any (λ (r : Run). is_active r.status) rs) step ∙ h)
      ∙ step

-- Where the ids of new runs are new, a pass leaves the runs of a job with a run that goes on as
-- they are: it starts no other.
pub run_due-runs_of :
    (host : Host) (now : ℕ) (job : Str) (t : Tables)
    → ((runs : List Run) → All (λ (r : Run). r.id ≢ host.new_id runs) runs)
    → is_running job t.runs ≡ true
    → runs_of job (run_due host now t).runs ≡ runs_of job t.runs
unfolding run_due
run_due-runs_of host now job t fresh h =
    run_each-Keeps host now job (filter (is_due now) t.schedules) t fresh h
