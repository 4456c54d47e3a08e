-- ===== src/Worker/Teardown.antt =====
-- `_RunContext`, `_load_context`, `_cancel_teardown`, `_settle_orphaned_run` and the tick of `_monitor`.
-- A transaction that raises leaves the tables as they were.
use cyber.Base.{
  ℕ, ◌+◌, Bool, false, not, ◌&&◌, Option, none, some, List, [], ◌∷◌, if◌then◌else◌, Text, codes,
  text_same, ltb,
}
use cyber.Base.Errors.{ok, err}
use cyber.Identity.{Principal}
use cyber.Assessment.Status.{AssessmentStatus, status_eq, is_terminal}
use cyber.Assessment.Service.{transition}
use cyber.Job.Life.{cancel_jobs_for_assessment}
use cyber.Runner.Data.{
  AgentRunStatus, cancelled, is_final, is_running, cynux, Attempt, raised, returned, ◌>>=◌,
  AgentRun, AssessmentRow, Tables, put_run, put_assessment,
}
use cyber.Runner.Enter.{owned}
use cyber.Runner.Settle.{Output, completion}

pub record RunContext : Type 0 where
  pub run_status : AgentRunStatus
  pub organization_id : ℕ
  pub assessment_id : Option ℕ
  pub session_id : Option ℕ
  pub heartbeat_at : Option ℕ
  pub assessment_status : Option AssessmentStatus

unfoldable pub status_of : Option AssessmentRow → Option AssessmentStatus
status_of none = none
status_of (some a) = some a.row.status

-- The assessment of a run, tenant-scoped: `_load_assessment`.
unfoldable pub assessment_of : (organization_id : ℕ) → Option ℕ → Tables → Option AssessmentRow
unfolding owned
assessment_of organization_id none s = none
assessment_of organization_id (some id) s = owned organization_id (s.assessments id)

-- The message that the run's row names is this one.
unfoldable pub names_message : Text → Option Text → Bool
names_message message_id none = false
names_message message_id (some id) = text_same id message_id

-- The stamp that `_load_context` puts on a run.
unfoldable pub stamp_message : (run_id : ℕ) (message_id : Text) → AgentRun → Tables → Tables
unfolding names_message put_run
stamp_message run_id message_id run s =
    if not (is_final run.status) && not (names_message message_id run.queue_message_id)
    then put_run run_id (record run { queue_message_id = some message_id }) s
    else s

-- The snapshot that `_load_context` takes.
unfoldable pub context_of : AgentRun → Tables → RunContext
unfolding status_of assessment_of
context_of run s = record {
  run_status = run.status;
  organization_id = run.organization_id;
  assessment_id = run.assessment_id;
  session_id = run.session_id;
  heartbeat_at = run.heartbeat_at;
  assessment_status = status_of (assessment_of run.organization_id run.assessment_id s);
}

-- `_load_context`
unfoldable pub load_context :
    (run_id : ℕ) (message_id : Text) → Tables → Option (RunContext × Tables)
unfolding stamp_message context_of
load_context run_id message_id s = elim (s.runs run_id) [
  | none ↦ none
  | some run ↦ some (context_of run s, stamp_message run_id message_id run s)
]

-- The row of a run that is cancelled.
unfoldable pub cancelled_row : (now : ℕ) → AgentRun → AgentRun
cancelled_row now run = record run {
  status = cancelled;
  completed_at = some now;
  heartbeat_at = some now;
}

-- `if run is not None and run.status_enum not in _TERMINAL_RUN_STATUSES`
unfoldable pub cancel_run : (now run_id : ℕ) → Option AgentRun → Tables → Tables
unfolding cancelled_row put_run
cancel_run now run_id none s = s
cancel_run now run_id (some run) s =
    if is_final run.status then s else put_run run_id (cancelled_row now run) s

-- `principal.user_id if principal else None`
unfoldable pub user_or_none : Option Principal → Option ℕ
user_or_none none = none
user_or_none (some p) = p.user_id

-- `cancel_jobs_for_assessment`, on the tables
unfoldable pub flag_jobs : (now : ℕ) → Option Principal → AssessmentRow → Tables → Tables
unfolding cancel_jobs_for_assessment user_or_none
flag_jobs now principal a s = record s {
  jobs =
      (cancel_jobs_for_assessment now a.row.organization_id a.row.id (user_or_none principal)
        s.jobs).0;
}

-- The assessment that is being cancelled, and the jobs of one that has not ended.
unfoldable pub cancel_scans :
    (now : ℕ) → Option Principal → Option AssessmentRow → Tables → Attempt Tables
unfolding flag_jobs put_assessment
cancel_scans now principal none s = returned s
cancel_scans now principal (some a) s =
    if is_terminal a.row.status
    then returned s
    else if not (status_eq.equals a.row.status AssessmentStatus.cancelling)
    then returned (flag_jobs now principal a s)
    else elim (transition now a.row AssessmentStatus.cancelled none
        (some (codes "Cancelled by operator."))) [
          | err refused ↦ raised (cynux refused [])
          | ok moved ↦
              returned
                (put_assessment a.row.id (record a { row = moved }) (flag_jobs now principal a s))
        ]

-- The transaction of `_cancel_teardown`
unfoldable pub cancel_teardown :
    (now run_id : ℕ) → RunContext → Option Principal → Tables → Attempt Tables
unfolding cancel_scans assessment_of cancel_run
cancel_teardown now run_id ctx principal s = do
  s' ← cancel_scans now principal (assessment_of ctx.organization_id ctx.assessment_id s) s
  returned (cancel_run now run_id (s.runs run_id) s')

-- What `_cancel_teardown` tells the outside.
unfoldable pub teardown_outputs : RunContext → List Output
teardown_outputs ctx = elim ctx.session_id [
  | none ↦ []
  | some session_id ↦ completion session_id ctx.assessment_id AssessmentStatus.cancelled 0 none ∷ []
]

-- `_settle_orphaned_run`
unfoldable pub settle_orphaned_run : (now run_id : ℕ) → Option AgentRun → Tables → Tables
unfolding cancelled_row put_run
settle_orphaned_run now run_id none s = s
settle_orphaned_run now run_id (some run) s =
    if is_final run.status
    then s
    else put_run run_id
        (record (cancelled_row now run) {
          failure_reason =
              some
                (codes "The assessment reached a terminal state before this run could complete.");
        })
        s

-- `_heartbeat_and_check_cancel`, of the run that it finds: the stamp, and whether the assessment
-- is being cancelled.
unfoldable pub heartbeat_and_check_cancel :
    (now run_id : ℕ) → RunContext → Option AgentRun → Tables → Tables × Bool
unfolding put_run assessment_of
heartbeat_and_check_cancel now run_id ctx run s = (
  elim run [
    | none ↦ s
    | some r ↦
        if is_running r.status then put_run run_id (record r { heartbeat_at = some now }) s else s
  ],
  elim (assessment_of ctx.organization_id ctx.assessment_id s) [
    | none ↦ false
    | some a ↦ status_eq.equals a.row.status AssessmentStatus.cancelling
  ],
)

-- `_heartbeat_fresh`
unfoldable pub heartbeat_fresh : (now claim_idle_ms : ℕ) → Option ℕ → Bool
heartbeat_fresh now claim_idle_ms none = false
heartbeat_fresh now claim_idle_ms (some beat) = ltb now (beat + claim_idle_ms)
