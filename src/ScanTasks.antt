-- ===== src/ScanTasks.antt =====
-- web/src/lib/scan-tasks.ts: the queue of scans for external workers, as the rows of `scan_tasks`
-- and `scan_workers`. A call reads the clock once; a statement on rows is atomic.
mod Queue
pub mod Reports
pub mod Rows
pub mod Moves
pub mod Claiming
pub mod Leases
pub mod Refinement
pub use Queue.*
use chicoree.Prelude.{
  ℕ, zero, suc, ◌+◌, ◌*◌, Bool, true, false, not, ◌&&◌, ◌||◌, Option, none, some, get_or, List, [],
  ◌∷◌, ◌++◌, map, filter, find, take, length, ltb, leb, ◌==◌, if◌then◌else◌, Str, str, str_eq,
  is_empty, is_some,
}
use chicoree.Prelude.Sorting.{sort}
use Prim.Native.Nat.{Ordering, compare}
use chicoree.Scans.{
  Scan, ScanStatus, pending, indexing, Target, scan_target, set_scan_state, with_status,
  finish_scan, run_scan,
}

-- The rows of a statement `WHERE id = …`.
unfoldable pub update_task : Str → (Task → Task) → List Task → List Task
update_task id f [] = []
update_task id f (t ∷ ts) =
    let rest = update_task id f ts in if str_eq t.id id then f t ∷ rest else t ∷ rest

unfoldable pub update_worker : Str → (Worker → Worker) → List Worker → List Worker
update_worker name f [] = []
update_worker name f (w ∷ ws) =
    let rest = update_worker name f ws in if str_eq w.name name then f w ∷ rest else w ∷ rest

abbrev pub fresh_task : (id path digest repository_id : Str) → ℕ → Task
fresh_task id path digest repository_id now = record {
  id = id;
  digest = digest;
  repository_id = some repository_id;
  repository_path = path;
  status = queued;
  attempts = 0;
  available_at = now;
  leased_by = none;
  lease_until = none;
  last_error = none;
  created_at = now;
  updated_at = now;
}

abbrev pub requeued : (path repository_id : Str) → ℕ → Task → Task
requeued path repository_id now t = record t {
  repository_id = some repository_id;
  repository_path = path;
  status = queued;
  attempts = 0;
  available_at = now;
  leased_by = none;
  lease_until = none;
  last_error = none;
  updated_at = now;
}

-- `INSERT … ON CONFLICT (digest) DO UPDATE`; `id` is the random one.
pub put_task : (id path digest repository_id : Str) → ℕ → List Task → List Task
put_task id path digest repository_id now [] = fresh_task id path digest repository_id now ∷ []
put_task id path digest repository_id now (t ∷ ts) =
    let rest = put_task id path digest repository_id now ts in
    if str_eq t.digest digest then requeued path repository_id now t ∷ ts else t ∷ rest

unfoldable pub enqueue_scan : (id path digest repository_id : Str) → ℕ → Tables → Tables
unfolding put_task
enqueue_scan id path digest repository_id now db = record db {
  tasks = put_task id path digest repository_id now db.tasks;
  scans = set_scan_state (with_status repository_id digest pending none) db.scans;
}

put_worker : Str → ℕ → ℕ → List Worker → List Worker
put_worker name running now [] =
    record {
      name = name;
      running = running;
      completed = 0;
      failed = 0;
      last_error = none;
      last_seen_at = now;
    }
    ∷ []
put_worker name running now (w ∷ ws) =
    let rest = put_worker name running now ws in
    if str_eq w.name name then record w { running = running; last_seen_at = now } ∷ ws else w ∷ rest

unfoldable pub heartbeat : Str → ℕ → ℕ → Tables → Tables
unfolding put_worker
heartbeat name running now db = record db { workers = put_worker name running now db.workers }

-- The condition of the query for a task.
unfoldable pub is_due : ℕ → Task → Bool
is_due now t =
    leb t.available_at now
    && (is_queued t.status || (is_leased t.status && before t.lease_until now))

-- `ORDER BY created_at LIMIT 1`
older : Task → Option Task → Task
older t none = t
older t (some u) = if ltb u.created_at t.created_at then u else t

pub oldest_due : ℕ → List Task → Option Task
unfolding is_due older
oldest_due now [] = none
oldest_due now (t ∷ ts) =
    let rest = oldest_due now ts in if is_due now t then some (older t rest) else rest

abbrev pub claimed : Str → ℕ → Task → Task
claimed name now t = record t {
  status = leased;
  leased_by = some name;
  lease_until = some (now + lease_time);
  attempts = t.attempts + 1;
  updated_at = now;
}

abbrev pub abandoned : ℕ → Task → Task
abandoned now t = record t {
  status = done;
  last_error = some (str "nothing to scan");
  updated_at = now;
}

-- What a worker is handed: the row as claimed, and the repository of the image.
pub record ScanTaskPayload : Type 0 where
  pub task : Task
  pub repository_id : Str

-- What a claim comes to: the task that is handed out, if there is one.
abbrev pub Claimed : Type 0
Claimed = Option ScanTaskPayload × Tables

module _ (target : (path digest : Str) → Target) where
  -- Behind the look-up of the image; `again` is the recursive call.
  handed_out : (Tables → Option Claimed) → ℕ → Task → Tables → Option Str → Option Claimed
  handed_out again now t db none =
      again (record db { tasks = update_task t.id (abandoned now) db.tasks })
  handed_out again now t db (some repository_id) = some (
    some (record { task = t; repository_id = repository_id }),
    record db {
      scans = set_scan_state (with_status repository_id t.digest indexing none) db.scans;
    },
  )

  -- Behind the choice of a row, which is claimed.
  claim_found : (Tables → Option Claimed) → Str → ℕ → Tables → Option Task → Option Claimed
  unfolding handed_out
  claim_found again name now db none = some (none, db)
  claim_found again name now db (some t) =
      handed_out again now (claimed name now t)
        (record db { tasks = update_task t.id (claimed name now) db.tasks })
        (scan_target (target t.repository_path t.digest))

  -- On fuel for the number of rows that turn out to name nothing to scan; `none` means that it ran
  -- out.
  unfoldable pub claim : ℕ → Str → ℕ → Tables → Option Claimed
  unfolding claim_found oldest_due
  claim zero name now db = none
  claim (suc fuel) name now db =
      claim_found (claim fuel name now) name now db (oldest_due now db.tasks)

  -- Each round but the last ends a row that was due.
  unfoldable pub claim_scan_task : Str → ℕ → Tables → Option Claimed
  claim_scan_task name now db = claim (suc (length db.tasks)) name now db

-- Behind the look-up of the image; `here` is the scan that is run at once.
start_found : (id path digest : Str) → ℕ → (db here : Tables) → Option Str → Tables
unfolding enqueue_scan
start_found id path digest now db here none = here
start_found id path digest now db here (some repository_id) =
    enqueue_scan id path digest repository_id now db

module _ (target : (path digest : Str) → Target) (scanner : (path digest : Str) → Option Str) where
  -- `startScan`, `active` being `workersActive()` and `id` a random one.
  unfoldable pub start_scan : (active : Bool) → (id path digest : Str) → ℕ → Tables → Tables
  unfolding start_found
  start_scan active id path digest now db =
      let here = record db { scans = run_scan target scanner path digest db.scans } in
      if active
      then start_found id path digest now db here (scan_target (target path digest))
      else here
