-- ===== src/Scans.antt =====
-- web/src/lib/scan.ts: the state of the scan of an image, as the rows of `vulnerability_scans`. What
-- the registry holds under a path and a digest, and what the scanner answers, are parameters; a
-- scanner is configured.
use chicoree.Prelude.{
  Bool, true, false, not, ◌&&◌, Option, none, some, List, [], ◌∷◌, filter, if◌then◌else◌, Str,
  str_eq,
}

pub data ScanStatus : Type 0 where
  pending indexing scanned failed : ScanStatus

pub record Scan : Type 0 where
  pub digest : Str
  pub repository_id : Option Str
  pub status : ScanStatus
  pub error : Option Str

-- `INSERT … ON CONFLICT (digest) DO UPDATE`, for the status and the error.
unfoldable pub set_scan_state : Scan → List Scan → List Scan
set_scan_state s [] = s ∷ []
set_scan_state s (r ∷ rows) =
    let rest = set_scan_state s rows in if str_eq r.digest s.digest then s ∷ rows else r ∷ rest

-- What a path and a digest name: nothing or an index, an artifact, or an image of a repository.
pub data Target : Type 0 where
  nothing artifact : Target
  image : (repository_id : Str) → Target

-- `scanTarget`: only images are scanned.
abbrev pub scan_target : Target → Option Str
scan_target nothing = none
scan_target artifact = none
scan_target (image repository_id) = some repository_id

is_failed : ScanStatus → Bool
is_failed pending = false
is_failed indexing = false
is_failed scanned = false
is_failed failed = true

-- Drop the failure an older build may have recorded for this artifact.
drop_failure : Str → List Scan → List Scan
unfolding is_failed
drop_failure digest = filter (λ r. not (str_eq r.digest digest && is_failed r.status))

-- `finishScan`, for the row of the scan.
unfoldable pub finish_scan : Str → Str → List Scan → List Scan
finish_scan repository_id digest =
    set_scan_state (record {
      digest = digest;
      repository_id = some repository_id;
      status = scanned;
      error = none;
    })

-- The row that says that a scan has begun, and the one that says that it has failed.
abbrev pub with_status : Str → Str → ScanStatus → Option Str → Scan
with_status repository_id digest status error = record {
  digest = digest;
  repository_id = some repository_id;
  status = status;
  error = error;
}

-- `answer` is `none` where the scanner returns findings, else the message that it throws.
after_answer : Str → Str → Option Str → List Scan → List Scan
unfolding finish_scan
after_answer repository_id digest none rows = finish_scan repository_id digest rows
after_answer repository_id digest (some message) rows =
    set_scan_state (with_status repository_id digest failed (some message)) rows

run_target : Target → Str → (answer : Option Str) → List Scan → List Scan
unfolding drop_failure after_answer
run_target nothing digest answer rows = rows
run_target artifact digest answer rows = drop_failure digest rows
run_target (image repository_id) digest answer rows =
    after_answer repository_id digest answer
      (set_scan_state (with_status repository_id digest indexing none) rows)

module _ (target : (path digest : Str) → Target) (scanner : (path digest : Str) → Option Str) where
  unfoldable pub run_scan : (path digest : Str) → List Scan → List Scan
  unfolding run_target
  run_scan path digest rows = run_target (target path digest) digest (scanner path digest) rows
