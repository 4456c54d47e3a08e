-- ===== src/Agent/Scan.antt =====
-- backend/app/agent/nodes/scan.py: what the node may scan. The events and the steps of the timeline are
-- not modelled.
use cyber.Base.{
  refl, ℕ, Bool, true, false, not, Option, none, some, List, [], ◌∷◌, ◌++◌, map, keep, contains,
  nat_eq, if◌then◌else◌, Text, one_of,
}
use cyber.Base.Errors.{Error, invalid_target, target_denied, Result, ok, err, ◌>>=◌}
use cyber.Repository.{Tenanted, select}
use cyber.Assessment.Stage.{AssessmentStage}
use cyber.Assessment.Status.{AssessmentStatus}
use cyber.Assessment.Service.{Assessment, transition}
use cyber.Approval.Data.{
  string_eq, Uuid, Approval, ApprovalKind, ScannerName, scanner_value, approval_targets,
}
use cyber.Approval.Gate.{granted_approval}
use cyber.Targets.Data.{ValidatedTarget, TargetPolicySettings, IpAddress}
use cyber.Targets.Policy.{is_empty}
use cyber.Targets.Classify.{Parsers, validate_target}

-- The columns of `Asset` that the node reads.
pub record ScanAsset : Type 0 where
  pub id : ℕ
  pub organization_id : ℕ
  pub name : Text

instance abbrev pub asset_tenanted : Tenanted ScanAsset
asset_tenanted = record {
  id = λ a. a.id;
  organization_id = λ a. a.organization_id;
  stamp = λ o a. record a { organization_id = o };
  organization_id-stamp = λ o a. refl;
  id-stamp = λ o a. refl;
}

-- `assets_by_ids`
unfoldable pub assets_by_ids : (organization_id : ℕ) → List ℕ → List ScanAsset → List ScanAsset
assets_by_ids organization_id asset_ids table =
    keep (λ a. contains a.id asset_ids) (select organization_id table)

-- `_scan_policy`: the organization's own entries, if there is such an organization.
unfoldable pub scan_policy : Option (List Text) → TargetPolicySettings → TargetPolicySettings
scan_policy none settings = settings
scan_policy (some extra) settings = record settings { deny_list = settings.deny_list ++ extra }

-- Why nothing is scanned: `_NO_APPROVAL_NOTE`, `_NO_SCANNERS_NOTE`, `_NO_TARGETS_NOTE`.
pub data NoScan : Type 0 where
  no_approval no_scanners no_targets : NoScan

-- `_ACTIVE_SCANNERS`
abbrev pub active_scanner_names : List ScannerName
active_scanner_names = ScannerName.nmap ∷ ScannerName.nuclei ∷ ScannerName.zap ∷ []

-- The errors that `_canonical_targets` catches.
unfoldable pub is_dropped : Error → Bool
is_dropped invalid_target = true
is_dropped target_denied = true
is_dropped _ = false

-- `seen.setdefault(...)`, in the order of the first occurrence
unfoldable pub add_once : Text → List Text → List Text
add_once t seen = if one_of t seen then seen else seen ++ t ∷ []

-- The scope: targets and scanners, or why there is none.
pub data Scope : Type 0 where
  nothing : NoScan → Scope
  scope : List Text → List ScannerName → Scope

-- `_ScanPlan`
pub record ScanPlan : Type 0 where
  pub skip : Bool
  pub jobs : List (ScannerName × List Text)
  pub no_scan_reason : Option NoScan

-- One round of `_canonical_targets`: an asset that the policy refuses is left out, any other error goes on.
unfoldable pub add_target : List Text → Result ValidatedTarget → Result (List Text)
add_target seen (ok v) = ok (add_once v.canonical seen)
add_target seen (err e) = if is_dropped e then ok seen else err e

-- `return targets, scanners, ""`, or no target
unfoldable pub scope_of : List ScannerName → List Text → Scope
scope_of scanners targets = if is_empty targets then nothing no_targets else scope targets scanners

-- The plan of a scope.
unfoldable pub plan_of : Scope → ScanPlan
plan_of (nothing reason) = record { skip = false; jobs = []; no_scan_reason = some reason }
plan_of (scope targets scanners) = record {
  skip = false;
  jobs = map (λ s. (s, targets)) scanners;
  no_scan_reason = none;
}

-- `status in (WAITING_FOR_APPROVAL, SCANNING)`
unfoldable pub is_at_gate : AssessmentStatus → Bool
is_at_gate AssessmentStatus.waiting_for_approval = true
is_at_gate AssessmentStatus.scanning = true
is_at_gate _ = false

module _ (i : IpAddress) (x : Parsers) where
  -- The loop of `_canonical_targets`.
  unfoldable pub canonical_from :
      TargetPolicySettings → List Text → List ScanAsset → Result (List Text)
  canonical_from policy seen [] = ok seen
  canonical_from policy seen (a ∷ assets) =
      add_target seen (validate_target i x a.name policy) >>= λ next.
      canonical_from policy next assets

  -- `_canonical_targets`
  unfoldable pub canonical_targets : List ScanAsset → TargetPolicySettings → Result (List Text)
  canonical_targets assets policy = canonical_from policy [] assets

module _ (u : Uuid) where
  -- `[s for s in _ACTIVE_SCANNERS if s.value in scanner_values]`
  unfoldable pub approved_scanners : Approval → List ScannerName
  approved_scanners a =
      keep (λ s. contains (scanner_value s) (approval_targets u a).1) active_scanner_names

module _ (u : Uuid) (i : IpAddress) (x : Parsers) where
  -- `_resolve_scope`
  unfoldable pub resolve_scope :
      (organization_id : ℕ) → TargetPolicySettings → List ScanAsset → Option Approval → Result Scope
  resolve_scope organization_id policy table none = ok (nothing no_approval)
  resolve_scope organization_id policy table (some a) =
      let scanners = approved_scanners u a in
      let assets = assets_by_ids organization_id (approval_targets u a).0 table in
      if is_empty scanners
      then ok (nothing no_scanners)
      else (canonical_targets i x assets policy >>= λ targets. ok (scope_of scanners targets))

  -- `_authorize_and_plan`: the plan, and the assessment.
  unfoldable pub authorize_and_plan :
      (now : ℕ)
      → Assessment
      → List Approval
      → List ScanAsset
      → (extra : Option (List Text)) → TargetPolicySettings
      → Result (ScanPlan × Assessment)
  authorize_and_plan now a approvals table extra settings =
      if not (is_at_gate a.status)
      then ok (record { skip = true; jobs = []; no_scan_reason = none }, a)
      else (resolve_scope a.organization_id (scan_policy extra settings) table
            (granted_approval a.id ApprovalKind.scan_scope approvals)
          >>= λ found.
              transition now a AssessmentStatus.scanning (some AssessmentStage.scan_nmap) none
              >>= λ moved. ok (plan_of found, moved))

  -- `execute_scanners`: the jobs that it runs, and the assessment; a scan that is on record is not run again.
  unfoldable pub execute_scanners :
      (scanned : Bool) (now : ℕ)
      → Assessment
      → List Approval
      → List ScanAsset
      → (extra : Option (List Text)) → TargetPolicySettings
      → Result (List (ScannerName × List Text) × Assessment)
  execute_scanners scanned now a approvals table extra settings =
      if scanned
      then ok ([], a)
      else (authorize_and_plan now a approvals table extra settings >>= λ planned.
          ok (planned.0.jobs, planned.1))
