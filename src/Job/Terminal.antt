-- ===== src/Job/Terminal.antt =====
-- A job that ran ends in a terminal status that says what happened.
use cyber.Base.{ℕ, ◌≡◌, ◌↔◌, refl, Bool, true, false, Option, arith, is_some}
use cyber.Base.Errors.{ok}
use cyber.Job.Data.{completed, failed, is_over, is_active, ExitCode, ScannerJob, ScannerResult}
use cyber.Job.Life.{
  apply_result, finalize_failure, start_row, finished, refused, Execution, run_job, execute_job,
}

-- A job is consistent when a terminal status goes with a time of completion, and a failure code
-- with every terminal status but COMPLETED.
unfoldable pub IsSettled : ScannerJob → Type 0
IsSettled j =
    (is_over j.status ≡ true)
    × (is_some j.completed_at ≡ true)
    × ((is_some j.failure_code ≡ false) ↔ (j.status ≡ completed))

apply_result-IsSettled :
    (now : ℕ) (succeeds : ExitCode → Bool) (r : ScannerResult) (j : ScannerJob)
    → IsSettled (apply_result now succeeds r j)
unfolding apply_result IsSettled is_over
apply_result-IsSettled now succeeds r j = ground arith

apply_result_iff :
    (now : ℕ) (succeeds : ExitCode → Bool) (r : ScannerResult) (j : ScannerJob)
    → ((apply_result now succeeds r j).status ≡ completed)
      ↔ ((r.cancelled ≡ false) × (r.timed_out ≡ false) × (succeeds r.exit_code ≡ true))
unfolding apply_result
apply_result_iff now succeeds r j = ground arith

finalize_failure-IsSettled :
    (now error : ℕ) (j : ScannerJob) → IsSettled (finalize_failure now error j)
unfolding finalize_failure IsSettled is_over
finalize_failure-IsSettled now error j = ground arith

-- An active job whose scanner returns a result or raises an error that is caught ends settled. Of a
-- result it becomes COMPLETED exactly when the exit code is one of success and there was neither a
-- cancellation nor a timeout, whether or not its artifacts could be stored; of an error, FAILED.
pub execute_job_lem :
    (now later : ℕ) (worker : Option ℕ) (succeeds : ExitCode → Bool) (r : ScannerResult)
    → (error : ℕ) (stored : Option ℕ) (j : ScannerJob) → is_active j.status ≡ true
    → ((x : Execution) × (execute_job now later worker succeeds (finished r) stored j ≡ ok x)
        × IsSettled x.row
        × ((x.row.status ≡ completed)
            ↔ ((r.cancelled ≡ false) × (r.timed_out ≡ false) × (succeeds r.exit_code ≡ true))))
      × ((x : Execution) × (execute_job now later worker succeeds (refused error) stored j ≡ ok x)
          × IsSettled x.row
          × (x.row.status ≡ failed))
unfolding execute_job run_job finalize_failure
execute_job_lem now later worker succeeds r error stored j active = (
  (
    run_job now later worker succeeds (finished r) stored j,
    ground (arith, active),
    apply_result-IsSettled later succeeds r _,
    apply_result_iff later succeeds r _,
  ),
  (
    run_job now later worker succeeds (refused error) stored j,
    ground (arith, active),
    finalize_failure-IsSettled later error (start_row now worker j),
    refl,
  ),
)
