-- ===== src/Job/Data.antt =====
-- backend/app/db/models/scanner.py and `JobStatus`: a scanner job's row. The command line, the image,
-- the sandbox and the text of a failure are not modelled.
use cyber.Base.{ℕ, refl, Bool, true, false, Option}
use cyber.Repository.{Tenanted}

pub data JobStatus : Type 0 where
  queued running completed failed cancelled timeout : JobStatus

-- `JobStatus.is_terminal`
unfoldable pub is_over : JobStatus → Bool
is_over queued = false
is_over running = false
is_over _ = true

-- The status is QUEUED or RUNNING.
unfoldable pub is_active : JobStatus → Bool
is_active queued = true
is_active running = true
is_active _ = false

-- An exit code; the runner reports -1 for a container that never exited.
pub data ExitCode : Type 0 where
  code : ℕ → ExitCode
  no_exit : ExitCode

-- `failure_code`
pub data FailureCode : Type 0 where
  scanner_cancelled scanner_timeout scanner_exit_nonzero scanner_worker_lost : FailureCode
  raised : ℕ → FailureCode

pub record ScannerJob : Type 0 where
  pub id : ℕ
  pub organization_id : ℕ
  pub assessment_id : ℕ
  pub status : JobStatus
  pub timeout_seconds : ℕ
  pub worker_id : Option ℕ
  pub claimed_at : Option ℕ
  pub heartbeat_at : Option ℕ
  pub started_at : Option ℕ
  pub completed_at : Option ℕ
  pub duration_seconds : Option ℕ
  pub exit_code : Option ExitCode
  pub failure_code : Option FailureCode
  pub artifacts_archived : Bool
  pub cancel_requested : Bool
  pub cancel_requested_at : Option ℕ
  pub cancel_requested_by_id : Option ℕ

instance abbrev pub job_tenanted : Tenanted ScannerJob
job_tenanted = record {
  id = λ j. j.id;
  organization_id = λ j. j.organization_id;
  stamp = λ o j. record j { organization_id = o };
  organization_id-stamp = λ o j. refl;
  id-stamp = λ o j. refl;
}

-- `ScannerResult`
pub record ScannerResult : Type 0 where
  pub exit_code : ExitCode
  pub duration_seconds : ℕ
  pub timed_out : Bool
  pub cancelled : Bool
