-- ===== src/Assessment/Service.antt =====
-- backend/app/services/assessment.py: `transition`, `record_degradation`, `cancel_assessment`.
use cyber.Base.{
  Text, ℕ, ◌-◌, not, Option, none, some, List, [], ◌∷◌, ◌++◌, contains, take, leb, length,
  if◌then◌else◌, codes, refl, ◌&&◌, is_some,
}
use cyber.Base.Errors.{conflict, Result, ok, err, ◌>>=◌, ◌>>◌}
use cyber.Identity.{Principal, assessment_cancel, assessment_read, require}
use cyber.Repository.{Tenanted, get_or_404}
use cyber.Audit
use cyber.Audit.{AuditEvent, record_event}
use cyber.Assessment.Status.{
  AssessmentStatus, planning, completed, failed, cancelling, cancelled, status_eq, is_terminal,
  allowed_transitions,
}
use cyber.Assessment.Stage.{AssessmentStage}
use cyber.Progress.{percent_for, stage_for_status}

-- An entry of `Assessment.degradations`.
pub record Degradation : Type 0 where
  pub stage : Text
  pub component : Text
  pub reason : Text
  pub impact : Text
  pub occurred_at : ℕ

-- The columns of `Assessment` that these operations read or write. Its status and its stage are
-- only ever written as the value of a member, so they are the members here; times are numbers.
pub record Assessment : Type 0 where
  pub id : ℕ
  pub organization_id : ℕ
  pub status : AssessmentStatus
  pub current_stage : AssessmentStage
  pub progress_percent : ℕ
  pub started_at : Option ℕ
  pub completed_at : Option ℕ
  pub failure_reason : Option Text
  pub degradations : List Degradation

-- `_set_stage`
unfoldable pub set_stage : Assessment → AssessmentStage → Assessment
set_stage a stage = record a { current_stage = stage; progress_percent = percent_for stage }

-- `_set_stage(assessment, stage)` where a stage is given, and nothing where it is not.
unfoldable pub set_given_stage : Assessment → Option AssessmentStage → Assessment
unfolding set_stage
set_given_stage a none = a
set_given_stage a (some stage) = set_stage a stage

-- The stage that a move sets: the one given, or the one that represents the status.
unfoldable pub stage_of_move : Option AssessmentStage → AssessmentStatus → AssessmentStage
unfolding stage_for_status
stage_of_move none to = stage_for_status to
stage_of_move (some stage) to = stage

-- `if to is PLANNING and assessment.started_at is None`
unfoldable pub stamp_start : ℕ → AssessmentStatus → Assessment → Assessment
stamp_start now to a =
    if status_eq.equals to planning && not (is_some a.started_at)
    then record a { started_at = some now }
    else a

-- `if to.is_terminal`
unfoldable pub stamp_end : ℕ → AssessmentStatus → Assessment → Assessment
stamp_end now to a =
    if is_terminal to
    then if status_eq.equals to completed
      then record a { completed_at = some now; progress_percent = 100 }
      else record a { completed_at = some now }
    else a

-- `if reason and to in (FAILED, CANCELLED)`; an empty reason is none.
unfoldable pub stamp_reason : Option Text → AssessmentStatus → Assessment → Assessment
stamp_reason none to a = a
stamp_reason (some []) to a = a
stamp_reason (some (c ∷ cs)) to a =
    if contains to (failed ∷ cancelled ∷ [])
    then record a { failure_reason = some (take 4000 (c ∷ cs)) }
    else a

-- What `transition` writes once the move is allowed.
unfoldable pub move :
    (now : ℕ)
    → Assessment
    → AssessmentStatus
    → (stage : Option AssessmentStage) (reason : Option Text) → Assessment
unfolding set_stage stage_of_move stamp_start stamp_end stamp_reason
move now a to stage reason = stamp_reason reason to (
    stamp_end now to
      (stamp_start now to (set_stage (record a { status = to }) (stage_of_move stage to))))

unfoldable pub transition :
    (now : ℕ)
    → Assessment
    → AssessmentStatus
    → (stage : Option AssessmentStage) (reason : Option Text) → Result Assessment
transition now a to stage reason =
    if status_eq.equals a.status to
    then ok (set_given_stage a stage)
    else if not (contains to (allowed_transitions a.status))
    then err conflict
    else ok (move now a to stage reason)

abbrev pub max_degradations : ℕ
max_degradations = 200

-- `record_degradation`: the assessment, and the audit row that goes with it.
unfoldable pub record_degradation :
    (now : ℕ) → Assessment → (stage component reason impact : Text) → Assessment × AuditEvent
record_degradation now a stage component reason impact =
    let entry : Degradation = record {
      stage = stage;
      component = take 120 component;
      reason = take 600 reason;
      impact = take 600 impact;
      occurred_at = now;
    } in
    let existing : List Degradation =
      if leb max_degradations (length a.degradations)
      then take (max_degradations - 1) a.degradations
      else a.degradations in
    (
      record a { degradations = existing ++ entry ∷ [] },
      record_event now Audit.assessment_degraded none (some a.organization_id) (some a.id)
          Audit.success,
    )

instance abbrev pub assessment_tenanted : Tenanted Assessment
assessment_tenanted = record {
  id = λ a. a.id;
  organization_id = λ a. a.organization_id;
  stamp = λ o a. record a { organization_id = o };
  organization_id-stamp = λ o a. refl;
  id-stamp = λ o a. refl;
}

-- `get_assessment`
unfoldable pub get_assessment : Principal → ℕ → List Assessment → Result Assessment
get_assessment p id table = do
  require p (assessment_read ∷ [])
  get_or_404 p.organization_id id table

-- `payload.reason or "Cancelled by operator."`
unfoldable pub cancel_reason : Option Text → Text
cancel_reason none = codes "Cancelled by operator."
cancel_reason (some []) = codes "Cancelled by operator."
cancel_reason (some (c ∷ cs)) = c ∷ cs

-- `cancel_assessment`: the changed row, and the audit row.
unfoldable pub cancel_assessment :
    (now : ℕ)
    → Principal
    → ℕ
    → List Assessment
    → (reason : Option Text) → Result (Assessment × AuditEvent)
unfolding get_assessment
cancel_assessment now p id table reason = do
  require p (assessment_cancel ∷ [])
  a ← get_assessment p id table
  a' ← transition now a cancelling none (some (cancel_reason reason))
  ok (a', record_event now Audit.assessment_cancel (some p) none (some a.id) Audit.success)
