-- ===== src/Tests/Lives.antt =====
-- backend/app/services/job.py on two scanner jobs of different organizations.
use cyber.Base.{ℕ, zero, ◌≡◌, ◌↔◌, refl, Bool, true, false, none, some, List, [], ◌∷◌}
use cyber.Base.Errors.{ok}
use cyber.Identity.{permissions, role_has, missing, has_all, require}
use cyber.Repository.{get, get_or_404, select}
use cyber.Repository.Update.{update_rows}
use cyber.Audit
use cyber.Audit.{record_event, AuditEvent}
use cyber.Tests.Identities.{engineer}
use cyber.Job.Data.{
  JobStatus, queued, running, completed, failed, is_active, ExitCode, code, ScannerJob,
  job_tenanted, ScannerResult,
}
use cyber.Job.Life.{
  finished, refused, Execution, execute_job, cancel_row, cancels, write_cancel, request_cancel,
}
use cyber.Job.Terminal.{IsSettled, execute_job_lem}

abbrev pub job : (id org : ℕ) → JobStatus → ScannerJob
job id org status = record {
  id = id;
  organization_id = org;
  assessment_id = 1;
  status = status;
  timeout_seconds = 1800;
  worker_id = none;
  claimed_at = none;
  heartbeat_at = none;
  started_at = none;
  completed_at = none;
  duration_seconds = none;
  exit_code = none;
  failure_code = none;
  artifacts_archived = false;
  cancel_requested = false;
  cancel_requested_at = none;
  cancel_requested_by_id = none;
}

-- `success_exit_codes` of an adapter
abbrev zero_only : ExitCode → Bool
zero_only (code zero) = true
zero_only _ = false

abbrev clean : ScannerResult
clean = record { exit_code = code 0; duration_seconds = 40; timed_out = false; cancelled = false }

-- The upload failed, and the job is COMPLETED all the same.
execute_job_lem_example :
    ((x : Execution) × (execute_job 100 140
          (some 2)
          zero_only
          (finished clean)
          none
          (job 4 7 queued)
        ≡ ok x)
      × IsSettled x.row
      × ((x.row.status ≡ completed) ↔ ((false ≡ false) × (false ≡ false) × (true ≡ true))))
    × ((x : Execution) × (execute_job 100 140 (some 2) zero_only (refused 3) none (job 4 7 queued)
          ≡ ok x)
        × IsSettled x.row
        × (x.row.status ≡ failed))
execute_job_lem_example =
    execute_job_lem 100 140 (some 2) zero_only clean 3 none (job 4 7 queued)
      (unfold is_active in refl)

abbrev jobs : List ScannerJob
jobs = job 4 7 running ∷ job 5 8 running ∷ []

abbrev flagged : ScannerJob
flagged = record (job 4 7 running) {
  cancel_requested = true;
  cancel_requested_at = some 120;
  cancel_requested_by_id = some 3;
}

abbrev cancel_event : AuditEvent
cancel_event = record_event 120 Audit.scanner_cancel (some engineer) none (some 4) Audit.success

flagged_lem :
    request_cancel 120 engineer 4 jobs ≡ ok (flagged ∷ job 5 8 running ∷ [], true, cancel_event)
unfolding request_cancel require missing has_all role_has permissions get_or_404 get select
    write_cancel update_rows cancels cancel_row is_active
flagged_lem = refl
