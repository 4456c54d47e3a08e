-- ===== src/Tests/Requests.antt =====
-- backend/app/agent/nodes/approval.py on an assessment that has just found its assets.
use cyber.Base.{◌≡◌, refl, true, none, some, List, [], ◌∷◌, codes}
use cyber.Base.Errors.{ok}
use cyber.Audit
use cyber.Audit.{AuditEvent, record_event}
use cyber.Assessment.Stage.{AssessmentStage, asset_analysis}
use cyber.Assessment.Status.{discovery, waiting_for_approval, allowed_transitions}
use cyber.Assessment.Service.{Assessment, transition, move}
use cyber.Approval.Data.{Approval}
use cyber.Approval.Gate.{open_approval, pending_approval, latest, new_approval}
use cyber.Agent.Request.{ProposedAsset, risk_level, scope_request, open_and_stage}
use cyber.Agent.Reentry.{open_and_stage_lem}
use cyber.Tests.Approvals.{unary}

abbrev found : Assessment
found = record {
  id = 1;
  organization_id = 7;
  status = discovery;
  current_stage = asset_analysis;
  progress_percent = 40;
  started_at = some 10;
  completed_at = none;
  failure_reason = none;
  degradations = [];
}

abbrev exposed : List ProposedAsset
exposed = record { id = 2; internet_exposed = true; criticality = codes "high" } ∷ []

abbrev asked : Approval
asked = new_approval 100 5 found (scope_request unary (some 24) none none exposed)

abbrev asked_event : AuditEvent
asked_event = record_event 100 Audit.approval_requested none (some 7) (some 5) Audit.success

abbrev staged : Assessment
staged = move 100 found waiting_for_approval (some AssessmentStage.approval) none

asks :
    open_and_stage unary 100 5 (some 24) none none exposed found [] []
    ≡ ok ((asked, asked ∷ [], asked_event ∷ []), staged)
unfolding open_and_stage open_approval pending_approval latest scope_request risk_level transition
    allowed_transitions
asks = refl

open_and_stage_lem_example :
    (again : Assessment) × (open_and_stage unary 160 6
        (some 24)
        none
        none
        []
        staged
        (asked ∷ [])
        (asked ∷ [])
      ≡ ok ((asked, asked ∷ [], []), again))
    × (again.status ≡ waiting_for_approval)
open_and_stage_lem_example =
    open_and_stage_lem unary 100 5 (some 24) none none exposed found [] asked (asked ∷ [])
      (asked_event ∷ []) staged asks 160 6 (some 24) none none []
