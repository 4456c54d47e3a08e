-- ===== src/Job/Life.antt =====
-- `execute_job`, `request_cancel`, `cancel_jobs_for_assessment`, `reclaim_orphans`, on the
-- rows of the jobs. The runner, the artifact store and the adapters are parameters, given by what
-- they did.
use cyber.Base.{
  ℕ, ◌+◌, ◌-◌, min, max, Bool, true, false, ◌&&◌, Option, none, some, List, [], ◌∷◌, if◌then◌else◌,
  ltb, ◌==◌,
}
use cyber.Base.Errors.{conflict, Result, ok, err, ◌>>=◌, ◌>>◌}
use cyber.Identity.{Principal, assessment_cancel, require}
use cyber.Repository.{get_or_404}
use cyber.Repository.Update.{update_rows}
use cyber.Audit
use cyber.Audit.{AuditAction, AuditOutcome, AuditEvent, record_event}
use cyber.Job.Data.{
  JobStatus, running, completed, failed, cancelled, timeout, is_active, ExitCode, scanner_cancelled,
  scanner_timeout, scanner_exit_nonzero, scanner_worker_lost, raised, ScannerJob, job_tenanted,
  ScannerResult,
}

-- `_scanner_settings_or_default`, for a request that is not negative
unfoldable pub clamp_timeout : Option ℕ → ℕ
clamp_timeout none = 1800
clamp_timeout (some seconds) = max 1 (min seconds 21600)

-- The row when the worker takes the job.
unfoldable pub start_row : ℕ → Option ℕ → ScannerJob → ScannerJob
start_row now worker j = record j {
  status = running;
  started_at = some now;
  claimed_at = some now;
  heartbeat_at = some now;
  worker_id = worker;
}

-- `_apply_result`; `succeeds` is the adapter's set of success codes.
unfoldable pub apply_result :
    ℕ → (succeeds : ExitCode → Bool) → ScannerResult → ScannerJob → ScannerJob
apply_result now succeeds r j =
    let done = record j {
      exit_code = some r.exit_code;
      completed_at = some now;
      duration_seconds = some r.duration_seconds;
    } in
    if r.cancelled
    then record done { status = cancelled; failure_code = some scanner_cancelled }
    else if r.timed_out
    then record done { status = timeout; failure_code = some scanner_timeout }
    else if succeeds r.exit_code
    then record done { status = completed; failure_code = none }
    else record done { status = failed; failure_code = some scanner_exit_nonzero }

-- `_finalize_failure`
unfoldable pub finalize_failure : ℕ → (error : ℕ) → ScannerJob → ScannerJob
finalize_failure now error j = record j {
  status = failed;
  completed_at = some now;
  failure_code = some (raised error);
  duration_seconds = elim j.started_at [
    | none ↦ j.duration_seconds
    | some start ↦ some (now - start)
  ];
}

-- `_terminal_audit_action`
unfoldable pub terminal_audit_action : JobStatus → AuditAction
terminal_audit_action completed = Audit.scanner_complete
terminal_audit_action timeout = Audit.scanner_timeout
terminal_audit_action cancelled = Audit.scanner_cancel
terminal_audit_action _ = Audit.scanner_fail

-- `_terminal_outcome`
unfoldable pub terminal_outcome : JobStatus → AuditOutcome
terminal_outcome completed = Audit.success
terminal_outcome cancelled = Audit.denied
terminal_outcome _ = Audit.failure

-- What the runner did: it returned a result, it raised an error of the scanner, or one that
-- `execute_job` does not catch.
pub data Outcome : Type 0 where
  finished : ScannerResult → Outcome
  refused : (error : ℕ) → Outcome
  crashed : Outcome

-- What the upload did: how many artifacts it stored, or `none` for a `StorageError`.
unfoldable pub archived : Option ℕ → Bool
archived none = false
archived (some stored) = ltb 0 stored

-- What `execute_job` leaves: the row as it was committed last, the last audit row, and whether it
-- returned.
pub record Execution : Type 0 where
  pub row : ScannerJob
  pub returned : Bool
  pub events : List AuditEvent

unfoldable pub job_event : ℕ → AuditAction → AuditOutcome → ScannerJob → AuditEvent
job_event now action outcome j =
    record_event now action none (some j.organization_id) (some j.id) outcome

-- `execute_job`, after its guard
unfoldable pub run_job :
    (now later : ℕ) (worker : Option ℕ) (succeeds : ExitCode → Bool)
    → Outcome
    → (stored : Option ℕ) → ScannerJob
    → Execution
run_job now later worker succeeds (finished r) stored j =
    let started = start_row now worker j in
    let over =
      apply_result later succeeds r (record started { artifacts_archived = archived stored }) in
    record {
      row = over;
      returned = true;
      events =
          job_event now Audit.scanner_start Audit.success j
          ∷ job_event later (terminal_audit_action over.status) (terminal_outcome over.status) j
          ∷ [];
    }
run_job now later worker succeeds (refused error) stored j = record {
  row = finalize_failure later error (start_row now worker j);
  returned = false;
  events =
      job_event now Audit.scanner_start Audit.success j
      ∷ job_event later Audit.scanner_fail Audit.failure j
      ∷ [];
}
run_job now later worker succeeds crashed stored j = record {
  row = start_row now worker j;
  returned = false;
  events = job_event now Audit.scanner_start Audit.success j ∷ [];
}

-- `execute_job`
unfoldable pub execute_job :
    (now later : ℕ) (worker : Option ℕ) (succeeds : ExitCode → Bool)
    → Outcome
    → (stored : Option ℕ) → ScannerJob
    → Result Execution
execute_job now later worker succeeds outcome stored j =
    if is_active j.status
    then ok (run_job now later worker succeeds outcome stored j)
    else err conflict

-- The rows that `reclaim_orphans` fails.
unfoldable pub is_orphan : (now stale_after : ℕ) → ScannerJob → Bool
is_orphan now stale_after j = elim j.status [
  | running ↦ elim j.heartbeat_at [ none ↦ false | some beat ↦ ltb (beat + stale_after) now ]
  | _ ↦ false
]

unfoldable pub orphan_row : ℕ → ScannerJob → ScannerJob
orphan_row now j = record j {
  status = failed;
  completed_at = some now;
  failure_code = some scanner_worker_lost;
}

-- What the UPDATE of a cancellation writes.
unfoldable pub cancel_row : ℕ → Option ℕ → ScannerJob → ScannerJob
cancel_row now by j = record j {
  cancel_requested = true;
  cancel_requested_at = some now;
  cancel_requested_by_id = by;
}

-- The condition of the UPDATE of `request_cancel`.
unfoldable pub cancels : (org id : ℕ) → ScannerJob → Bool
cancels org id j = j.id == id && j.organization_id == org && is_active j.status

-- The UPDATE of `request_cancel`, whether it applied, and the audit row.
unfoldable pub write_cancel :
    (now : ℕ)
    → Principal
    → (id : ℕ) → (table : List ScannerJob) → ScannerJob
    → Result (List ScannerJob × Bool × AuditEvent)
write_cancel now p id table j =
    let (rows, count) =
      update_rows (cancels p.organization_id id) (cancel_row now p.user_id) table in
    ok (
      rows,
      count == 1,
      record_event now Audit.scanner_cancel (some p) none (some id) Audit.success,
    )

-- `request_cancel`
unfoldable pub request_cancel :
    (now : ℕ)
    → Principal
    → (id : ℕ) → List ScannerJob
    → Result (List ScannerJob × Bool × AuditEvent)
request_cancel now p id table =
    require p (assessment_cancel ∷ [])
    >> (get_or_404 p.organization_id id table >>= write_cancel now p id table)

-- The condition of the UPDATE of `cancel_jobs_for_assessment`.
unfoldable pub cancels_for : (org assessment_id : ℕ) → ScannerJob → Bool
cancels_for org assessment_id j =
    j.assessment_id == assessment_id && j.organization_id == org && is_active j.status

-- `cancel_jobs_for_assessment`, on the jobs
unfoldable pub cancel_jobs_for_assessment :
    (now org assessment_id : ℕ) → (by : Option ℕ) → List ScannerJob → List ScannerJob × ℕ
unfolding update_rows
cancel_jobs_for_assessment now org assessment_id by table =
    update_rows (cancels_for org assessment_id) (cancel_row now by) table

-- `reclaim_orphans`
unfoldable pub reclaim_orphans : (now stale_after : ℕ) → List ScannerJob → List ScannerJob × ℕ
unfolding update_rows
reclaim_orphans now stale_after table =
    update_rows (is_orphan now stale_after) (orphan_row now) table
