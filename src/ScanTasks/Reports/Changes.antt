-- ===== src/ScanTasks/Reports/Changes.antt =====
-- The reports of workers and the tick of the scheduler, as changes of the table.
use mathlib.Core.List.{Memᴰ}
use chicoree.Prelude.{
  ℕ, ◌≡◌, refl, ap, Bool, true, if-cases, Option, none, some, find-some, find-Memᴰ, &&-left,
  &&-right, List, [], ◌∷◌, All, if◌then◌else◌, Str, str_eq, str_eq→eq, ◌&&◌, ◌||◌, not, ◌==◌, leb,
}
use chicoree.Scans.{Target}
use chicoree.ScanTasks.{Task, Tables, is_queued, is_leased, update_task, max_attempts}
use chicoree.ScanTasks.Rows.{
  Lacks, Distinct, update-Memᴰ, update-Memᴰ-other, map-Distinct, due_inline-Distinct,
  due_inline-All,
}
use chicoree.ScanTasks.Moves.{
  ticks, reports, Change, stay, act, release, forget, follow, Legal, completes, gives_up, puts_back,
  takes, ends, release-id,
}
use chicoree.ScanTasks.Reports.{
  holds, is_leased_to, leased_task, cut, complete_found, complete_scan_task, fail_found,
  fail_scan_task, release_if_expired, taken_inline, ended, run_inline, run_all_inline, due_inline,
  release_expired, sweep, online_worker_count, dispatch_scan_tasks,
}

-- The row that a report is about is in the table and leased.
leased_task-Memᴰ :
    (id name : Str) (db : Tables) (t : Task) → leased_task id name db ≡ some t → Memᴰ t db.tasks
leased_task-Memᴰ id name db t e = find-Memᴰ (is_leased_to id name) db.tasks e

leased_task-leased :
    (id name : Str) (db : Tables) (t : Task)
    → leased_task id name db ≡ some t
    → is_leased t.status ≡ true
leased_task-leased id name db t e = &&-left (is_leased t.status) (holds name t.leased_by) (
    &&-right (str_eq t.id id) (is_leased t.status && holds name t.leased_by)
      (find-some (is_leased_to id name) db.tasks e))

holds→eq : (name : Str) (by : Option Str) → holds name by ≡ true → by ≡ some name
holds→eq name none h = cc (h)
holds→eq name (some by) h = ap some (str_eq→eq by name h)

leased_task-leased_by :
    (id name : Str) (db : Tables) (t : Task)
    → leased_task id name db ≡ some t
    → t.leased_by ≡ some name
leased_task-leased_by id name db t e = holds→eq name t.leased_by (
    &&-right (is_leased t.status) (holds name t.leased_by) (
      &&-right (str_eq t.id id) (is_leased t.status && holds name t.leased_by)
        (find-some (is_leased_to id name) db.tasks e)))

complete_found-Change :
    (id name : Str) (now : ℕ) (db : Tables) (found : Option Task)
    → leased_task id name db ≡ found
    → Change now (reports name) db.tasks (complete_found name now db found).1.tasks
unfolding complete_found
complete_found-Change id name now db none e = stay
complete_found-Change id name now db (some t) e =
    act (leased_task-Memᴰ id name db t e)
      (completes (leased_task-leased id name db t e) (leased_task-leased_by id name db t e))

pub complete_scan_task-Change :
    (id name : Str) (now : ℕ) (db : Tables)
    → Change now (reports name) db.tasks (complete_scan_task id name now db).1.tasks
unfolding complete_scan_task
complete_scan_task-Change id name now db =
    complete_found-Change id name now db (leased_task id name db) refl

fail_found-Change :
    (id name error : Str) (now : ℕ) (db : Tables) (found : Option Task)
    → leased_task id name db ≡ found
    → Change now (reports name) db.tasks (fail_found name error now db found).1.tasks
unfolding fail_found
fail_found-Change id name error now db none e = stay
fail_found-Change id name error now db (some t) e = act (leased_task-Memᴰ id name db t e) (
    if-cases (Legal now t (reports name)) (leb max_attempts t.attempts)
      (λ h.
        gives_up (cut error) (leased_task-leased id name db t e)
          (leased_task-leased_by id name db t e))
      (λ h.
        puts_back (cut error) t.attempts (leased_task-leased id name db t e)
          (leased_task-leased_by id name db t e)))

pub fail_scan_task-Change :
    (id name error : Str) (now : ℕ) (db : Tables)
    → Change now (reports name) db.tasks (fail_scan_task id name error now db).1.tasks
unfolding fail_scan_task
fail_scan_task-Change id name error now db =
    fail_found-Change id name error now db (leased_task id name db) refl

module _ (target : (path digest : Str) → Target) (scanner : (path digest : Str) → Option Str) where
  run_inline-Change :
      (now : ℕ) (r : Task) (db : Tables)
      → Memᴰ r db.tasks
      → is_queued r.status ≡ true
      → Change now ticks db.tasks (run_inline target scanner now r db).tasks
  unfolding run_inline
  run_inline-Change now r db m q =
      follow (act m (takes q)) (act (update-Memᴰ (taken_inline now) db.tasks m) (ends refl refl))

  -- The rows still to run stand in the table as they were read.
  run_inline-keeps :
      (now : ℕ) (r : Task) (rs : List Task) (db : Tables)
      → Lacks r.id rs
      → All (λ t. Memᴰ t db.tasks × (is_queued t.status ≡ true)) rs
      → All
          (λ t. Memᴰ t (run_inline target scanner now r db).tasks × (is_queued t.status ≡ true))
          rs
  unfolding run_inline
  run_inline-keeps now r [] db l h = tt
  run_inline-keeps now r (t ∷ ts) db l h = (
    (
      update-Memᴰ-other (ended now) r.id (update_task r.id (taken_inline now) db.tasks) l.0
          (update-Memᴰ-other (taken_inline now) r.id db.tasks l.0 h.0.0),
      h.0.1,
    ),
    run_inline-keeps now r ts db l.1 h.1,
  )

  run_all_inline-Change :
      (now : ℕ) (rs : List Task) (db : Tables)
      → Distinct rs
      → All (λ t. Memᴰ t db.tasks × (is_queued t.status ≡ true)) rs
      → Change now ticks db.tasks (run_all_inline target scanner now rs db).tasks
  unfolding run_all_inline
  run_all_inline-Change now [] db d h = stay
  run_all_inline-Change now (r ∷ rs) db d h = follow (run_inline-Change now r db h.0.0 h.0.1) (
      run_all_inline-Change now rs (run_inline target scanner now r db) d.1
        (run_inline-keeps now r rs db d.0 h.1))

  pub dispatch_scan_tasks-Change :
      (active : Bool) (now : ℕ) (db : Tables)
      → Distinct db.tasks
      → Change now ticks db.tasks (dispatch_scan_tasks target scanner active now db).1.tasks
  unfolding dispatch_scan_tasks release_expired sweep
  dispatch_scan_tasks-Change active now db d =
      let freed = release_expired now db in
      let online = if active then online_worker_count now db.workers else 0 in
      let distinct = map-Distinct (release_if_expired now) (release-id now) db.tasks d in
      follow release (
        follow
          (if-cases
            (λ rows.
              Change now ticks freed.tasks (run_all_inline target scanner now rows freed).tasks)
            (not active || online == 0)
            (λ h.
              run_all_inline-Change now (due_inline now freed.tasks) freed
                (due_inline-Distinct now freed.tasks distinct) (due_inline-All now freed.tasks))
            (λ h. run_all_inline-Change now [] freed tt tt))
          forget)
