-- ===== src/ScanTasks/Refinement/Steps.antt =====
-- The steps of the queue keep what the specification of one task promises.
use chicoree.Prelude.{ℕ, Option, Str}
use chicoree.Scans.{Target}
use chicoree.ScanTasks.{Tables}
use chicoree.ScanTasks.Moves.{Call}
use chicoree.ScanTasks.Leases.{Step, Reached, Step-Change, Reached-Distinct}
use chicoree.ScanTasks.Refinement.{Allowed, phase_of}
use chicoree.ScanTasks.Refinement.Changes.{Change-Allowed}

module _ (target : (path digest : Str) → Target) (scanner : (path digest : Str) → Option Str) where
  -- In tables that calls have reached, whatever the call, each task moves as the specification
  -- allows that call: a worker is given a task that waits or whose lease is over, only the worker
  -- that has a task returns or finishes it, and the scheduler takes back, runs and forgets tasks.
  pub Step-Allowed :
      {now : ℕ} {c : Call} {a b : Tables} (id : Str)
      → Reached target scanner a
      → Step target scanner now c a b
      → Allowed now c (phase_of id a.tasks) (phase_of id b.tasks)
  Step-Allowed id r s =
      let d = Reached-Distinct target scanner r in
      Change-Allowed id (Step-Change target scanner s d) d
