-- ===== src/ScanTasks/Leases.antt =====
-- The steps of the queue, in any order, and what holds of the table whatever they were.
use chicoree.Prelude.{ℕ, ◌≡◌, refl, sym, subst, Bool, true, false, Option, none, some, [], All, Str}
use chicoree.Scans.{Target, scan_target, run_scan}
use chicoree.ScanTasks.{
  Tables, enqueue_scan, start_found, start_scan, heartbeat, claim_scan_task, Claimed,
}
use chicoree.ScanTasks.Rows.{Lacks, Distinct}
use chicoree.ScanTasks.Moves.{
  Call, pushes, ticks, asks, reports, Change, stay, put, IsSound, Change-IsSound, Change-Distinct,
}
use chicoree.ScanTasks.Claiming.{Sound, claim_scan_task-Sound}
use chicoree.ScanTasks.Reports.{complete_scan_task, fail_scan_task, dispatch_scan_tasks}
use chicoree.ScanTasks.Reports.Changes.{
  complete_scan_task-Change, fail_scan_task-Change, dispatch_scan_tasks-Change,
}

-- One call, at a time. The id of a new row is random: no row has it.
pub data Step (target : (path digest : Str) → Target) (scanner : (path digest : Str) → Option Str)
    (now : ℕ) : Call → Tables → Tables → Type 0 where
  enqueues :
      (id path digest repository_id : Str) (db : Tables)
      → Lacks id db.tasks
      → Step target scanner now pushes db (enqueue_scan id path digest repository_id now db)
  starts :
      (active : Bool) (id path digest : Str) (db : Tables)
      → Lacks id db.tasks
      → Step target scanner now pushes db (start_scan target scanner active id path digest now db)
  beats :
      (name : Str) (running : ℕ) (db : Tables)
      → Step target scanner now (asks name) db (heartbeat name running now db)
  claims :
      (name : Str) (db : Tables) (c : Claimed)
      → claim_scan_task target name now db ≡ some c
      → Step target scanner now (asks name) db c.1
  completes :
      (id name : Str) (db : Tables)
      → Step target scanner now (reports name) db (complete_scan_task id name now db).1
  fails :
      (id name error : Str) (db : Tables)
      → Step target scanner now (reports name) db (fail_scan_task id name error now db).1
  dispatches :
      (active : Bool) (db : Tables)
      → Step target scanner now ticks db (dispatch_scan_tasks target scanner active now db).1

abbrev pub start : Tables
start = record { tasks = []; workers = []; scans = [] }

start_found-Change :
    (id path digest : Str) (now : ℕ) (db here : Tables) (found : Option Str)
    → Lacks id db.tasks
    → here.tasks ≡ db.tasks
    → Change now pushes db.tasks (start_found id path digest now db here found).tasks
unfolding start_found enqueue_scan
start_found-Change id path digest now db here none l e =
    subst (λ ts. Change now pushes db.tasks ts) (sym e) stay
start_found-Change id path digest now db here (some repository_id) l e =
    put id path digest repository_id l

module _ (target : (path digest : Str) → Target) (scanner : (path digest : Str) → Option Str) where
  start_scan-Change :
      (active : Bool) (id path digest : Str) (now : ℕ) (db : Tables)
      → Lacks id db.tasks
      → Change now pushes db.tasks (start_scan target scanner active id path digest now db).tasks
  unfolding start_scan
  start_scan-Change true id path digest now db l =
      start_found-Change id path digest now db
        (record db { scans = run_scan target scanner path digest db.scans })
        (scan_target (target path digest)) l refl
  start_scan-Change false id path digest now db l = stay

  pub Step-Change :
      {now : ℕ} {c : Call} {a b : Tables}
      → Step target scanner now c a b
      → Distinct a.tasks
      → Change now c a.tasks b.tasks
  unfolding enqueue_scan heartbeat
  Step-Change (enqueues id path digest repository_id db l) d = put id path digest repository_id l
  Step-Change {now} (starts active id path digest db l) d =
      start_scan-Change active id path digest now db l
  Step-Change (beats name running db) d = stay
  Step-Change {now} (claims name db c e) d =
      (subst (Sound name now db.tasks) e (claim_scan_task-Sound target name now db)).0
  Step-Change {now} (completes id name db) d = complete_scan_task-Change id name now db
  Step-Change {now} (fails id name error db) d = fail_scan_task-Change id name error now db
  Step-Change {now} (dispatches active db) d =
      dispatch_scan_tasks-Change target scanner active now db d

-- Reached from empty tables by calls at any times.
pub data Reached (target : (path digest : Str) → Target)
    (scanner : (path digest : Str) → Option Str) : Tables → Type 0 where
  first : Reached target scanner start
  next :
      {now : ℕ} {c : Call} {a b : Tables}
      → Reached target scanner a
      → Step target scanner now c a b
      → Reached target scanner b

module _ (target : (path digest : Str) → Target) (scanner : (path digest : Str) → Option Str) where
  pub Reached-Distinct : {db : Tables} → Reached target scanner db → Distinct db.tasks
  Reached-Distinct first = tt
  Reached-Distinct (next r s) =
      let d = Reached-Distinct r in Change-Distinct (Step-Change target scanner s d) d

  -- In tables that calls have reached, a task that waits names no lease, and one that a worker has
  -- names the worker, the end of the lease and at least one attempt.
  pub Reached-IsSound : {db : Tables} → Reached target scanner db → All IsSound db.tasks
  Reached-IsSound first = tt
  Reached-IsSound (next r s) =
      Change-IsSound (Step-Change target scanner s (Reached-Distinct r)) (Reached-IsSound r)
