-- ===== src/Runner/Settle.antt =====
-- `_settle`, `_settle_interrupt`, `_settle_complete`, `_settle_failure`: how an invocation of the graph
-- is written down. A transaction that raises leaves the tables as they were.
use Prim.Native.String.{String}
use cyber.Base.{ℕ, true, Option, none, some, List, [], ◌∷◌, if◌then◌else◌, Text, codes, take}
use cyber.Base.Errors.{ok, err}
use cyber.Identity.{Principal}
use cyber.Identity.State.{PrincipalState, from_dict}
use cyber.Assessment.Status.{AssessmentStatus, is_terminal}
use cyber.Assessment.Service.{transition}
use cyber.Approval.Data.{string_eq, Uuid}
use cyber.Agent.Graph.{Node}
use cyber.Runner.Data.{
  interrupted, completed, failed, ErrorCategory, internal_error, category, Raised, cynux,
  unexpected, Attempt, raised, returned, ◌>>=◌, AgentRun, AssessmentRow, StateSnapshot, Tables,
  put_run, put_assessment, RunOutcome,
}
use cyber.Runner.Enter.{load_run, run_identity, load_assessment}

-- What a run tells the outside: a completion or an error on its session's channel, and the notice of a
-- failure to its owner.
pub data Output : Type 0 where
  completion :
      (session_id : ℕ) (assessment_id : Option ℕ)
      → AssessmentStatus
      → (findings_total : ℕ) (report_id : Option ℕ) → Output
  error_event : (session_id : ℕ) → ErrorCategory → Output
  failure_notice : Principal → (assessment_id : ℕ) (reason : Text) → Output

-- What a settlement leaves.
pub record Settled : Type 0 where
  pub outcome : RunOutcome
  pub store : Tables
  pub outputs : List Output

-- `_UNEXPECTED_USER_MESSAGE`
abbrev pub unexpected_user_message : Text
unexpected_user_message =
    codes "The assessment could not be completed because of an unexpected internal error."

-- `error.user_message`, of an error that `_wrap_unexpected` has wrapped where needed
unfoldable pub user_message : Raised → Text
user_message (cynux e message) = message
user_message unexpected = unexpected_user_message

-- `error.category`, likewise
unfoldable pub error_category : Raised → ErrorCategory
unfolding category
error_category (cynux e message) = category e
error_category unexpected = internal_error

-- The row of a run that paused.
unfoldable pub interrupted_row :
    (now : ℕ) (approval_id : Option ℕ) (paused_at : Node) → AgentRun → AgentRun
interrupted_row now approval_id paused_at run = record run {
  status = interrupted;
  interrupt_kind = true;
  pending_approval_id = approval_id;
  current_node = some paused_at;
  heartbeat_at = some now;
}

-- The row of a run that reached the end.
unfoldable pub completed_row : (now : ℕ) → AgentRun → AgentRun
completed_row now run = record run {
  status = completed;
  completed_at = some now;
  current_node = none;
  heartbeat_at = some now;
}

-- The row of a run that failed.
unfoldable pub failed_row : (now : ℕ) → Raised → AgentRun → AgentRun
unfolding user_message error_category
failed_row now e run = record run {
  status = failed;
  completed_at = some now;
  failure_reason = some (take 4000 (user_message e));
  failure_category = some (error_category e);
  heartbeat_at = some now;
}

-- The assessment of a run that failed: moved to FAILED, unless it has ended.
unfoldable pub failed_assessment : (now : ℕ) → Raised → AssessmentRow → Attempt AssessmentRow
unfolding user_message error_category
failed_assessment now e a =
    if is_terminal a.row.status
    then returned a
    else elim (transition now a.row AssessmentStatus.failed none (some (user_message e))) [
      | err refused ↦ raised (cynux refused [])
      | ok moved ↦ returned (record a { row = moved; failure_category = some (error_category e) })
    ]

unfoldable pub notices : Option Principal → (assessment_id : ℕ) → Raised → List Output
unfolding user_message
notices none assessment_id e = []
notices (some actor) assessment_id e = failure_notice actor assessment_id (user_message e) ∷ []

-- `principal or recovered`
unfoldable pub actor_or : Option Principal → Option Principal → Option Principal
actor_or none recovered = recovered
actor_or (some p) recovered = some p

module _ (u : Uuid) where
  -- `optional_state_uuid`, of a channel; a text that is no UUID raises a `ValueError`.
  unfoldable pub optional_state_uuid : Option String → Attempt (Option ℕ)
  optional_state_uuid none = returned none
  optional_state_uuid (some raw) =
      if string_eq.equals raw ""
      then returned none
      else elim (u.parse raw) [ none ↦ raised unexpected | some n ↦ returned (some n) ]

  -- The principal of a dict that can be read.
  unfoldable pub readable : Option PrincipalState → Option Principal
  unfolding from_dict
  readable none = none
  readable (some raw) = elim (from_dict u raw) [ err e ↦ none | ok p ↦ some p ]

  -- `_recover_context`: the principal that the seed carried
  unfoldable pub recover_principal : Option StateSnapshot → Option Principal
  unfolding readable
  recover_principal none = none
  recover_principal (some snapshot) = readable snapshot.principal

  -- `_settle_interrupt`
  unfoldable pub settle_interrupt :
      (now run_id : ℕ) → StateSnapshot → (paused_at : Node) → Tables → Attempt Settled
  unfolding optional_state_uuid load_run interrupted_row put_run
  settle_interrupt now run_id snapshot paused_at s = do
    approval_id ← optional_state_uuid snapshot.approval_id
    run ← load_run run_id s
    returned (record {
      outcome = record {
        run_id = run_id;
        status = interrupted;
        report_id = none;
        findings_total = 0;
        failure_category = none;
      };
      store = put_run run_id (interrupted_row now approval_id paused_at run) s;
      outputs = [];
    })

  -- `_settle_complete`
  unfoldable pub settle_complete : (now run_id : ℕ) → StateSnapshot → Tables → Attempt Settled
  unfolding optional_state_uuid load_run run_identity completed_row put_run load_assessment
  settle_complete now run_id snapshot s = do
    report_id ← optional_state_uuid snapshot.report_id
    run ← load_run run_id s
    ids ← run_identity run
    a ← load_assessment run.organization_id ids.0 s
    returned (record {
      outcome = record {
        run_id = run_id;
        status = completed;
        report_id = report_id;
        findings_total = a.findings_total;
        failure_category = none;
      };
      store = put_run run_id (completed_row now run) s;
      outputs = completion ids.1 (some ids.0) a.row.status a.findings_total report_id ∷ [];
    })

  -- `_settle`, of what is next in the graph
  unfoldable pub settle_snapshot :
      (now run_id : ℕ) → StateSnapshot → (next : List Node) → Tables → Attempt Settled
  unfolding settle_interrupt settle_complete
  settle_snapshot now run_id snapshot [] s = settle_complete now run_id snapshot s
  settle_snapshot now run_id snapshot (n ∷ next) s = settle_interrupt now run_id snapshot n s

  -- `_settle`
  unfoldable pub settle : (now run_id : ℕ) (thread_id : Text) → Tables → Attempt Settled
  unfolding settle_snapshot
  settle now run_id thread_id s = elim (s.checkpoints thread_id) [
    | none ↦ raised unexpected
    | some snapshot ↦ settle_snapshot now run_id snapshot snapshot.next s
  ]

  -- `_settle_failure`
  unfoldable pub settle_failure :
      (now run_id : ℕ) (thread_id : Text) → Raised → Option Principal → Tables → Attempt Settled
  unfolding load_run run_identity load_assessment failed_assessment recover_principal notices
      actor_or failed_row put_run put_assessment error_category
  settle_failure now run_id thread_id e principal s = do
    run ← load_run run_id s
    ids ← run_identity run
    a ← load_assessment run.organization_id ids.0 s
    a' ← failed_assessment now e a
    returned (record {
      outcome = record {
        run_id = run_id;
        status = failed;
        report_id = none;
        findings_total = 0;
        failure_category = some (error_category e);
      };
      store = put_assessment ids.0 a' (put_run run_id (failed_row now e run) s);
      outputs =
          error_event ids.1 (error_category e)
          ∷ notices (actor_or principal (recover_principal (s.checkpoints thread_id))) ids.0 e;
    })
