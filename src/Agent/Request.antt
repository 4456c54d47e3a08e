-- ===== src/Agent/Request.antt =====
-- backend/app/agent/nodes/approval.py: the node that asks for the approval. The texts of the prompt and of
-- the rationale, and what is published, are not modelled.
use Prim.Native.String.{String}
use cyber.Base.{
  ℕ, Bool, ◌&&◌, Option, none, some, List, [], ◌∷◌, map, some_of, if◌then◌else◌, Text, codes,
  one_of,
}
use cyber.Base.Errors.{Result, ok, ◌>>=◌}
use cyber.Audit.{AuditEvent}
use cyber.Assessment.Stage.{AssessmentStage}
use cyber.Assessment.Status.{AssessmentStatus}
use cyber.Assessment.Service.{Assessment, transition}
use cyber.Approval.Data.{Uuid, Payload, Approval, scan_scope, RiskLevel, ScannerName, scanner_value}
use cyber.Approval.Gate.{OpenIn, open_approval}
use cyber.Agent.Graph.{
  AssessmentDepth, passive, standard, deep, depth_named, depth_or_standard, depth_scanners,
}

-- The columns of `Asset` that the node reads.
pub record ProposedAsset : Type 0 where
  pub id : ℕ
  pub internet_exposed : Bool
  pub criticality : Text

-- `_ELEVATED_CRITICALITY`
abbrev pub elevated_criticality : List Text
elevated_criticality = codes "critical" ∷ codes "high" ∷ []

-- `_risk_level`
unfoldable pub risk_level : List ProposedAsset → RiskLevel
risk_level assets =
    if some_of (λ a. a.internet_exposed && one_of a.criticality elevated_criticality) assets
    then RiskLevel.high
    else RiskLevel.medium

-- `_depth_from`, from what the text names.
unfoldable pub known_depth : Option AssessmentDepth → AssessmentDepth
known_depth none = standard
known_depth (some d) = d

-- `_depth_from`
unfoldable pub depth_from : Option Text → AssessmentDepth
depth_from depth = known_depth (depth_named (depth_or_standard depth))

-- `depth.value`
unfoldable pub depth_value : AssessmentDepth → String
depth_value passive = "passive"
depth_value standard = "standard"
depth_value deep = "deep"

module _ (u : Uuid) where
  -- `_requested_payload`
  unfoldable pub requested_payload :
      List ProposedAsset → List ScannerName → AssessmentDepth → Payload
  requested_payload assets scanners depth = record {
    asset_ids = map (λ a. u.text a.id) assets;
    scanners = map scanner_value scanners;
    decision = none;
    depth = some (depth_value depth);
    rate_limit = none;
  }

  -- The arguments of `open_approval`.
  unfoldable pub scope_request :
      (ttl_hours policy_hours : Option ℕ) → Option Text → List ProposedAsset → OpenIn
  scope_request ttl_hours policy_hours depth assets = record {
    kind = scan_scope;
    requested_payload =
        requested_payload assets (depth_scanners (depth_from depth)) (depth_from depth);
    risk_level = risk_level assets;
    ttl_hours = ttl_hours;
    policy_hours = policy_hours;
  }

  -- `_open_and_stage`: the approval, the table, the audit rows, and the assessment. The pending row is
  -- looked for in the table as it was, as in `open_approval`.
  unfoldable pub open_and_stage :
      (now id : ℕ)
      → (ttl_hours policy_hours : Option ℕ) → Option Text
      → List ProposedAsset
      → Assessment
      → (seen table : List Approval)
      → Result ((Approval × List Approval × List AuditEvent) × Assessment)
  open_and_stage now id ttl_hours policy_hours depth assets a seen table =
      open_approval now id a (scope_request ttl_hours policy_hours depth assets) seen table
      >>= λ opened.
          transition now a AssessmentStatus.waiting_for_approval (some AssessmentStage.approval)
            none
          >>= λ moved. ok (opened, moved)
