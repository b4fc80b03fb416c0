-- ===== src/ScanTasks/Reports.antt =====
-- The second half of web/src/lib/scan-tasks.ts: what workers report, and the tick of the scheduler.
pub mod Changes
pub mod Refused
pub mod Held
use Prim.Native.Nat.{Ordering, compare}
use chicoree.Prelude.{
  ℕ, ◌+◌, ◌*◌, Bool, true, false, not, ◌&&◌, ◌||◌, Option, none, some, get_or, List, [], ◌∷◌, map,
  filter, find, take, length, ltb, leb, ◌==◌, if◌then◌else◌, Str, str, str_eq,
}
use chicoree.Prelude.Sorting.{sort}
use chicoree.Scans.{Scan, ScanStatus, Target, set_scan_state, finish_scan, run_scan}
use chicoree.ScanTasks.{
  Task, TaskStatus, queued, leased, done, failed, Worker, Tables, is_queued, is_leased, before,
  update_task, update_worker, lease_time, max_attempts, minute_ms, day_ms, worker_online_time,
  inline_per_tick,
}

abbrev pub holds : Str → Option Str → Bool
holds name none = false
holds name (some by) = str_eq by name

abbrev pub is_leased_to : Str → Str → Task → Bool
is_leased_to id name t = str_eq t.id id && (is_leased t.status && holds name t.leased_by)

abbrev pub leased_task : Str → Str → Tables → Option Task
leased_task id name db = find (is_leased_to id name) db.tasks

abbrev pub completed : ℕ → Task → Task
completed now t = record t { status = done; last_error = none; updated_at = now }

counts_completed : ℕ → Worker → Worker
counts_completed now w = record w { completed = w.completed + 1; last_seen_at = now }

-- The findings go into the row of the scan, whose columns for them are left out.
complete_found : Str → ℕ → Tables → Option Task → Bool × Tables
unfolding counts_completed
complete_found name now db none = (false, db)
complete_found name now db (some t) = (
  true,
  record {
    tasks = update_task t.id (completed now) db.tasks;
    workers = update_worker name (counts_completed now) db.workers;
    scans = finish_scan (get_or t.repository_id []) t.digest db.scans;
  },
)

unfoldable pub complete_scan_task : (id name : Str) → ℕ → Tables → Bool × Tables
unfolding complete_found
complete_scan_task id name now db = complete_found name now db (leased_task id name db)

abbrev pub given_up : Str → ℕ → Task → Task
given_up message now t = record t { status = failed; last_error = some message; updated_at = now }

abbrev pub put_back : Str → ℕ → ℕ → Task → Task
put_back message attempts now t = record t {
  status = queued;
  leased_by = none;
  lease_until = none;
  last_error = some message;
  available_at = now + minute_ms * attempts;
  updated_at = now;
}

counts_failed : Str → ℕ → Worker → Worker
counts_failed message now w = record w {
  failed = w.failed + 1;
  last_error = some message;
  last_seen_at = now;
}

-- `error.slice(0, 1000)`
abbrev pub cut : Str → Str
cut error = take 1000 error

fail_found : Str → Str → ℕ → Tables → Option Task → Bool × Tables
unfolding counts_failed
fail_found name error now db none = (false, db)
fail_found name error now db (some t) =
    let message = cut error in
    let exhausted = leb max_attempts t.attempts in
    (
      true,
      record {
        tasks =
            update_task t.id
              (if exhausted then given_up message now else put_back message t.attempts now)
              db.tasks;
        workers = update_worker name (counts_failed message now) db.workers;
        scans =
            if exhausted
            then set_scan_state
                (record {
                  digest = t.digest;
                  repository_id = t.repository_id;
                  status = ScanStatus.failed;
                  error = some message;
                })
                db.scans
            else db.scans;
      },
    )

unfoldable pub fail_scan_task : (id name error : Str) → ℕ → Tables → Bool × Tables
unfolding fail_found
fail_scan_task id name error now db = fail_found name error now db (leased_task id name db)

unfoldable pub online_worker_count : ℕ → List Worker → ℕ
online_worker_count now workers =
    length (filter (λ w. ltb now (w.last_seen_at + worker_online_time)) workers)

unfoldable pub is_expired : ℕ → Task → Bool
is_expired now t = is_leased t.status && before t.lease_until now

abbrev pub released : ℕ → Task → Task
released now t = record t {
  status = queued;
  leased_by = none;
  lease_until = none;
  updated_at = now;
  last_error = some (get_or t.last_error (str "lease expired"));
}

abbrev pub release_if_expired : ℕ → Task → Task
release_if_expired now t = if is_expired now t then released now t else t

abbrev pub web_inline : Str
web_inline = str "web (inline)"

abbrev pub taken_inline : ℕ → Task → Task
taken_inline now t = record t {
  status = leased;
  leased_by = some web_inline;
  lease_until = some (now + lease_time);
  attempts = t.attempts + 1;
  updated_at = now;
}

abbrev pub ended : ℕ → Task → Task
ended now t = record t { status = done; updated_at = now }

module _ (target : (path digest : Str) → Target) (scanner : (path digest : Str) → Option Str) where
  -- One round of the loop of a tick without workers.
  run_inline : ℕ → Task → Tables → Tables
  run_inline now r db = record db {
    tasks = update_task r.id (ended now) (update_task r.id (taken_inline now) db.tasks);
    scans = run_scan target scanner r.repository_path r.digest db.scans;
  }

  run_all_inline : ℕ → List Task → Tables → Tables
  unfolding run_inline
  run_all_inline now [] db = db
  run_all_inline now (r ∷ rs) db = run_all_inline now rs (run_inline now r db)

abbrev pub created_first : Task → Task → Ordering
created_first a b = compare a.created_at b.created_at

abbrev pub is_waiting : ℕ → Task → Bool
is_waiting now t = is_queued t.status && leb t.available_at now

abbrev pub due_inline : ℕ → List Task → List Task
due_inline now ts = take inline_per_tick (sort created_first (filter (is_waiting now) ts))

-- `DELETE … WHERE status IN ('done', 'failed') AND …`
unfoldable pub is_kept : ℕ → Task → Bool
is_kept now t =
    is_queued t.status || is_leased t.status || not (ltb (t.updated_at + 7 * day_ms) now)

release_expired : ℕ → Tables → Tables
unfolding is_expired
release_expired now db = record db { tasks = map (release_if_expired now) db.tasks }

sweep : ℕ → Tables → Tables
unfolding is_kept
sweep now db = record db {
  tasks = filter (is_kept now) db.tasks;
  workers = filter (λ w. not (ltb (w.last_seen_at + 30 * day_ms) now)) db.workers;
}

module _ (target : (path digest : Str) → Target) (scanner : (path digest : Str) → Option Str) where
  -- `active` is `workersActive()`; the result counts the rows released and those run here.
  unfoldable pub dispatch_scan_tasks : (active : Bool) → ℕ → Tables → (ℕ × ℕ) × Tables
  unfolding release_expired run_all_inline online_worker_count sweep
  dispatch_scan_tasks active now db =
      let freed = release_expired now db in
      let online = if active then online_worker_count now db.workers else 0 in
      let rows = if not active || online == 0 then due_inline now freed.tasks else [] in
      (
        (length (filter (is_expired now) db.tasks), length rows),
        sweep now (run_all_inline target scanner now rows freed),
      )
