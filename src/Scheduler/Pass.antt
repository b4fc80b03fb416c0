-- ===== src/Scheduler/Pass.antt =====
-- The schedules after a pass.
use chicoree.Prelude.{
  or_true, and_false, leb-lt, All-map, ℕ, ◌<◌, ◌≡◌, ◌⊎◌, inl, inr, refl, sym, ap, ◌∙◌, true, false,
  ◌&&◌, ◌||◌, Option, none, some, List, [], ◌∷◌, any, filter, All, if-cases, Str, str, str_eq,
  str_eq→eq, str_eq_refl, str_eq_sym, true-false,
}
use chicoree.Scheduler.{
  Schedule, Run, Host, Tables, is_running, is_due, set_schedules, new_run, run_job, set_job,
  report_run, start_job, known_job, slotted, at_next, run_schedule, run_each, run_due, merged,
}
use chicoree.Scheduler.Ended.{ended-running}

-- Neither due nor, if it is, without a run that goes on.
pub IsSettled : ℕ → List Run → Schedule → Type 0
IsSettled now before s = (is_due now s ≡ false) ⊎ (is_running s.job before ≡ true)

abbrev Pending : ℕ → List Run → List Schedule → Schedule → Type 0
Pending now before rest s =
    (any (λ (d : Schedule). str_eq d.job s.job) rest ≡ true) ⊎ IsSettled now before s

set_schedules-All :
    (P Q : Schedule → Type 0) (job : Str) (change : Schedule → Schedule)
    → ((s : Schedule) → str_eq s.job job ≡ true → P s → Q (change s))
    → ((s : Schedule) → str_eq s.job job ≡ false → P s → Q s)
    → (ss : List Schedule) → All P ss
    → All Q (set_schedules job change ss)
unfolding set_schedules
set_schedules-All P Q job change same apart [] h = h
set_schedules-All P Q job change same apart (s ∷ ss) (p, ps) = (
  if-cases Q (str_eq s.job job) (λ e. same s e p) (λ e. apart s e p),
  set_schedules-All P Q job change same apart ss ps,
)

module _ (host : Host) (now : ℕ) (before : List Run) where
  abbrev Leaves : List Schedule → Tables → Type 0
  Leaves rest t =
      All (Pending now before rest) t.schedules
      × ((job : Str) → is_running job t.runs ≡ true → is_running job before ≡ true)

  module _ (d : Schedule) (ds : List Schedule) where
    still :
        (s : Schedule)
        → str_eq s.job d.job ≡ false
        → Pending now before (d ∷ ds) s
        → Pending now before ds s
    still s e (inl h) = inl (
        ap (λ x. x || any (λ (c : Schedule). str_eq c.job s.job) ds)
          (sym (str_eq_sym d.job s.job ∙ e))
        ∙ h)
    still s e (inr h) = inr h

    -- The rows of the schedule are settled by the change.
    settled :
        (change : Schedule → Schedule) (t : Tables)
        → ((s : Schedule) → str_eq s.job d.job ≡ true → IsSettled now before (change s))
        → Leaves (d ∷ ds) t
        → Leaves ds (set_job host now d.job change t)
    unfolding set_job
    settled change t h (rows, runs) = (
      set_schedules-All (Pending now before (d ∷ ds)) (Pending now before ds) d.job change
          (λ s e _. inr (h s e)) still t.schedules rows,
      runs,
    )

    run_job-running :
        (job : Str) (params : List (Str × Str)) (by other : Str) (t : Tables)
        → is_running other (run_job host now job params by t).1.runs ≡ true
        → is_running other t.runs ≡ true
    unfolding run_job new_run
    run_job-running job params by other t h =
        ended-running other (host.perform job params (host.clock t.runs))
          (new_run host now job params by t.runs) t.runs h

    slot_later :
        (s : Schedule) (next : ℕ)
        → now < next
        → IsSettled now before (record s { next_run_at = some next })
    unfolding IsSettled is_due
    slot_later s next later =
        inl (ap (λ a. s.enabled && a) (leb-lt next now later) ∙ and_false s.enabled)

    start_job-Leaves :
        (params : List (Str × Str)) (next : ℕ) (t : Tables)
        → now < next
        → Leaves (d ∷ ds) t
        → Leaves ds (start_job host now d params next t)
    unfolding start_job report_run set_job run_job IsSettled is_due
    start_job-Leaves params next t later h =
        if-cases (Leaves ds) (is_running d.job t.runs)
          (λ e.
            settled (λ s. record s { last_status = some (str "skipped: already running") }) t
              (λ s same.
                inr (ap (λ j. is_running j before) (str_eq→eq s.job d.job same) ∙ h.1 d.job e))
              h)
          (λ _.
            let set =
              settled (λ s. record s { last_run_at = some now; next_run_at = some next }) t
                (λ s _. slot_later (record s { last_run_at = some now }) next later) h in
            (
              set_schedules-All (Pending now before ds) (Pending now before ds) d.job
                  (λ s. record s {
                    last_status =
                        some
                          (run_job host now d.job (merged d.params params) (str "schedule") (
                            set_job host now d.job
                              (λ s'. record s' { last_run_at = some now; next_run_at = some next })
                              t)).0;
                  })
                  (λ s _ p. p) (λ s _ p. p)
                  (set_job host now d.job
                    (λ s. record s { last_run_at = some now; next_run_at = some next }) t).schedules
                  set.0,
              λ job k. h.1 job (
                  run_job-running d.job (merged d.params params) (str "schedule") job
                    (set_job host now d.job
                      (λ s. record s { last_run_at = some now; next_run_at = some next }) t)
                    k),
            ))

    known_job-Leaves :
        (params : Option (List (Str × Str))) (next : ℕ) (t : Tables)
        → now < next
        → Leaves (d ∷ ds) t
        → Leaves ds (known_job host now d params next t)
    unfolding known_job
    known_job-Leaves none next t later h =
        settled
          (λ s. record s {
            next_run_at = some next;
            last_status = some (str "skipped: unknown job");
          })
          t
          (λ s _.
            slot_later (record s { last_status = some (str "skipped: unknown job") }) next later)
          h
    known_job-Leaves (some params) next t later h = start_job-Leaves params next t later h

    slotted-Leaves :
        (at : Option ℕ) (next : ℕ) (t : Tables)
        → now < next
        → Leaves (d ∷ ds) t
        → Leaves ds (slotted host now d at next t)
    unfolding slotted
    slotted-Leaves none next t later h =
        settled (λ s. record s { next_run_at = some next }) t (λ s _. slot_later s next later) h
    slotted-Leaves (some at) next t later h =
        known_job-Leaves (host.job_params d.job) next t later h

    at_next-Leaves :
        (next : Option ℕ) (t : Tables)
        → ((at : ℕ) → next ≡ some at → now < at)
        → Leaves (d ∷ ds) t
        → Leaves ds (at_next host now d next t)
    unfolding at_next IsSettled is_due
    at_next-Leaves none t later h =
        settled
          (λ s. record s { enabled = false; last_status = some (str "disabled: invalid cron") }) t
          (λ s _. inl refl) h
    at_next-Leaves (some next) t later h = slotted-Leaves d.next_run_at next t (later next refl) h

  run_each-Leaves :
      (ds : List Schedule) (t : Tables)
      → ((cron timezone : Str) (at : ℕ) → host.next_run cron timezone now ≡ some at → now < at)
      → Leaves ds t
      → Leaves [] (run_each host now ds t)
  unfolding run_each run_schedule
  run_each-Leaves [] t later h = h
  run_each-Leaves (d ∷ ds) t later h =
      run_each-Leaves ds (run_schedule host now d t) later
        (at_next-Leaves d ds (host.next_run d.cron d.timezone now) t (later d.cron d.timezone) h)

  more :
      (d : Schedule) (rest : List Schedule) (s : Schedule)
      → Pending now before rest s
      → Pending now before (d ∷ rest) s
  more d rest s (inl h) = inl (ap (λ x. str_eq d.job s.job || x) h ∙ or_true (str_eq d.job s.job))
  more d rest s (inr h) = inr h

  due-Pending : (ss : List Schedule) → All (Pending now before (filter (is_due now) ss)) ss
  unfolding IsSettled
  due-Pending [] = tt
  due-Pending (s ∷ ss) =
      if-cases (λ kept. All (Pending now before kept) (s ∷ ss)) (is_due now s)
        (λ _. (
          inl (
              ap (λ x. x || any (λ (d : Schedule). str_eq d.job s.job) (filter (is_due now) ss))
                (str_eq_refl s.job)),
          All-map (Pending now before (filter (is_due now) ss))
              (Pending now before (s ∷ filter (is_due now) ss)) ss (more s (filter (is_due now) ss))
              (due-Pending ss),
        ))
        (λ e. (inr (inl e), due-Pending ss))

  none_pending : (s : Schedule) → Pending now before [] s → IsSettled now before s
  none_pending s (inl h) = absurd (true-false (sym h))
  none_pending s (inr h) = h

-- Where the parser of cron expressions answers with times after the one it is asked about, no
-- schedule is due any more after a pass at its time, except one whose job had a run that went on
-- when the pass began.
pub run_due-IsSettled :
    (host : Host) (now : ℕ) (t : Tables)
    → ((cron timezone : Str) (at : ℕ) → host.next_run cron timezone now ≡ some at → now < at)
    → All (IsSettled now t.runs) (run_due host now t).schedules
unfolding run_due
run_due-IsSettled host now t later =
    All-map (Pending now t.runs []) (IsSettled now t.runs) (run_due host now t).schedules
      (λ s. none_pending host now t.runs s)
      (run_each-Leaves host now t.runs (filter (is_due now) t.schedules) t later
        (due-Pending host now t.runs t.schedules, λ job k. k)).0
