-- ===== src/ScanTasks/Refinement.antt =====
-- What the queue promises for one task, and that its rows keep the promise.
pub mod Changes
pub mod Steps
use mathlib.Core.List.{Memᴰ}
use chicoree.Prelude.{
  ℕ, ◌+◌, ◌≡◌, ◌≢◌, refl, sym, ap, ◌∙◌, subst, Bool, true, false, not, ◌*◌, ◌&&◌, ◌||◌, Bool-cases,
  inl, inr, if-cases, &&-right, Option, none, some, List, [], ◌∷◌, All-Memᴰ, map, filter,
  if◌then◌else◌, Str, str_eq, str_eq→eq, arith, ltb, leb,
}
use chicoree.Scans.{Target}
use chicoree.ScanTasks.{
  Task, TaskStatus, queued, leased, done, failed, Tables, is_queued, is_leased, before, day_ms,
  update_task, is_due, lease_time, put_task,
}
use chicoree.ScanTasks.Rows.{Lacks, Distinct, differs_from_itself, update-Memᴰ, update-Distinct}
use chicoree.ScanTasks.Moves.{
  Call, pushes, asks, reports, ticks, Change, stay, put, act, release, forget, Change-Distinct,
  Legal, claims, abandons, completes, gives_up, puts_back, takes, ends, Legal-id,
}
use chicoree.ScanTasks.Reports.{is_kept, web_inline, release_if_expired, is_expired}
use chicoree.ScanTasks.Leases.{Step, Reached, Step-Change, Reached-Distinct}

-- A task waits, is with a worker until its lease ends, or is over.
pub data Phase : Type 0 where
  waiting finished : Phase
  running : (by : Option Str) → (until : Option ℕ) → Phase

-- What a call at a time may do to one task. A push asks for it, again if need be. A worker that asks
-- for work is given a task that waits or whose lease is over, for a lease, and a task that names
-- nothing to scan is over. A worker returns or finishes what it has itself. The scheduler takes a
-- task back when its lease is over, runs one that waits, and forgets one that is over.
pub data Allowed (now : ℕ) : Call → Option Phase → Option Phase → Type 0 where
  idle : {c : Call} {p : Option Phase} → Allowed now c p p
  asked : {p : Option Phase} → Allowed now pushes p (some waiting)
  granted :
      {name : Str}
      → Allowed now
          (asks name)
          (some waiting)
          (some (running (some name) (some (now + lease_time))))
  regranted :
      {name : Str} {old : Option Str} {until : Option ℕ}
      → before until now ≡ true
      → Allowed now
          (asks name)
          (some (running old until))
          (some (running (some name) (some (now + lease_time))))
  void :
      {name : Str} {until : Option ℕ}
      → Allowed now (asks name) (some (running (some name) until)) (some finished)
  returned :
      {name : Str} {until : Option ℕ}
      → Allowed now (reports name) (some (running (some name) until)) (some waiting)
  reported :
      {name : Str} {until : Option ℕ}
      → Allowed now (reports name) (some (running (some name) until)) (some finished)
  released :
      {by : Option Str} {until : Option ℕ}
      → before until now ≡ true
      → Allowed now ticks (some (running by until)) (some waiting)
  taken :
      Allowed now ticks (some waiting) (some (running (some web_inline) (some (now + lease_time))))
  ran :
      {until : Option ℕ}
      → Allowed now ticks (some (running (some web_inline) until)) (some finished)
  forgotten : Allowed now ticks (some finished) none
  follow :
      {c : Call} {p q r : Option Phase} → Allowed now c p q → Allowed now c q r → Allowed now c p r

abbrev pub phase_at : TaskStatus → Option Str → Option ℕ → Phase
phase_at queued by until = waiting
phase_at leased by until = running by until
phase_at done by until = finished
phase_at failed by until = finished

abbrev pub phase : Task → Phase
phase t = phase_at t.status t.leased_by t.lease_until

-- The view of a table: the phase of the task of an id.
pub phase_of : Str → List Task → Option Phase
phase_of id [] = none
phase_of id (t ∷ ts) = let rest = phase_of id ts in if str_eq t.id id then some (phase t) else rest
