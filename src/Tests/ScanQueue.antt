-- ===== src/Tests/ScanQueue.antt =====
-- A push is queued, handed to a worker and reported on.
use chicoree.Prelude.{
  ◌⊎◌, All, ◌≡◌, refl, true, false, Option, none, some, [], ◌∷◌, All, Str, str, str_eq,
  if◌then◌else◌,
}
use chicoree.Scans.{Target, image, nothing}
use chicoree.ScanTasks.{Task, leased, Tables, enqueue_scan, claim_scan_task, Claimed}
use chicoree.ScanTasks.Rows.{Lacks, differs_from_itself}
use chicoree.ScanTasks.Moves.{IsSound, asks}
use chicoree.ScanTasks.Claiming.{Handed, claim_scan_task-Handed}
use chicoree.ScanTasks.Leases.{Step, enqueues, claims, Reached, first, next, start, Reached-IsSound}
use chicoree.ScanTasks.Refinement.{Allowed, phase_of}
use chicoree.ScanTasks.Refinement.Steps.{Step-Allowed}
use chicoree.ScanTasks.Reports.{complete_scan_task, fail_scan_task}
use chicoree.ScanTasks.Reports.Refused.{complete_scan_task-once}
use chicoree.ScanTasks.Reports.Held.{IsHeld, IsForeign, reports-IsHeld}

-- One image that the registry holds, and one that has gone.
abbrev held : (path digest : Str) → Target
held path digest = if str_eq digest (str "sha256:gone") then nothing else image (str "repo")

abbrev finds_nothing : (path digest : Str) → Option Str
finds_nothing path digest = none

abbrev one_push : Tables
one_push = enqueue_scan (str "t1") (str "acme/app") (str "sha256:gone") (str "repo") 1000 start

abbrev two_pushes : Tables
two_pushes = enqueue_scan (str "t2") (str "acme/app") (str "sha256:a") (str "repo") 2000 one_push

one_push-Lacks : Lacks (str "t2") one_push.tasks
unfolding enqueue_scan str_eq
one_push-Lacks = (λ e. differs_from_itself e refl, tt)

two_pushes-Reached : Reached held finds_nothing two_pushes
two_pushes-Reached =
    next
      (next first (enqueues (str "t1") (str "acme/app") (str "sha256:gone") (str "repo") start tt))
      (enqueues (str "t2") (str "acme/app") (str "sha256:a") (str "repo") one_push one_push-Lacks)

claim_scan_task-Handed_example :
    (c : Claimed) × (claim_scan_task held (str "w1") 3000 two_pushes ≡ some c)
    × Handed (str "w1") 3000 two_pushes.tasks c
claim_scan_task-Handed_example = claim_scan_task-Handed held (str "w1") 3000 two_pushes

abbrev after_claim : Tables
after_claim = (claim_scan_task-Handed held (str "w1") 3000 two_pushes).0.1

claim-Step : Step held finds_nothing 3000 (asks (str "w1")) two_pushes after_claim
claim-Step =
    claims (str "w1") two_pushes (claim_scan_task-Handed held (str "w1") 3000 two_pushes).0
      (claim_scan_task-Handed held (str "w1") 3000 two_pushes).1

Reached-IsSound_example : All IsSound after_claim.tasks
Reached-IsSound_example = Reached-IsSound held finds_nothing (next two_pushes-Reached claim-Step)

Step-Allowed_example :
    Allowed 3000
      (asks (str "w1"))
      (phase_of (str "t2") two_pushes.tasks)
      (phase_of (str "t2") after_claim.tasks)
Step-Allowed_example = Step-Allowed held finds_nothing (str "t2") two_pushes-Reached claim-Step

-- A row that the worker `w1` has.
abbrev running_row : Task
running_row = record {
  id = str "t2";
  digest = str "sha256:a";
  repository_id = some (str "repo");
  repository_path = str "acme/app";
  status = leased;
  attempts = 1;
  available_at = 2000;
  leased_by = some (str "w1");
  lease_until = some 1_203_000;
  last_error = none;
  created_at = 2000;
  updated_at = 3000;
}

abbrev running : Tables
running = record { tasks = running_row ∷ []; workers = []; scans = [] }

reports-IsHeld_example :
    (IsHeld (str "t2") (str "w2") running.tasks
      × ((complete_scan_task (str "t2") (str "w2") 4000 running).0 ≡ true)
      × ((fail_scan_task (str "t2") (str "w2") (str "timeout") 4000 running).0 ≡ true))
    ⊎ (All (IsForeign (str "t2") (str "w2")) running.tasks
        × (complete_scan_task (str "t2") (str "w2") 4000 running ≡ (false, running))
        × (fail_scan_task (str "t2") (str "w2") (str "timeout") 4000 running ≡ (false, running)))
reports-IsHeld_example = reports-IsHeld (str "t2") (str "w2") (str "timeout") 4000 running

abbrev after_report : Tables
after_report = (complete_scan_task (str "t2") (str "w1") 4000 running).1

is_completed : (complete_scan_task (str "t2") (str "w1") 4000 running).0 ≡ true
unfolding complete_scan_task str_eq
is_completed = refl

complete_scan_task-once_example :
    (complete_scan_task (str "t2") (str "w1") 5000 after_report ≡ (false, after_report))
    × (fail_scan_task (str "t2") (str "w1") (str "timeout") 5000 after_report
        ≡ (false, after_report))
complete_scan_task-once_example =
    complete_scan_task-once (str "t2") (str "w1") (str "w1") (str "timeout") 4000 5000 running
      is_completed
