-- ===== src/Tests/Scans.antt =====
-- backend/app/agent on one assessment with one approval.
use mathlib.Core.List.{Memᴰ}
use cyber.Base.{
  ◌≡◌, refl, true, false, none, some, List, [], ◌∷◌, Text, codes, All, contains, length, ◌≤◌, ◌↔◌,
}
use cyber.Base.Errors.{ok}
use cyber.Repository.{select}
use cyber.Assessment.Stage.{AssessmentStage, approval}
use cyber.Assessment.Status.{scanning}
use cyber.Assessment.Service.{Assessment, transition, set_given_stage}
use cyber.Approval.Data.{
  string_eq, scan_scope, ScannerName, scanner_value, nmap, Approval, approval_targets, parse_all,
  is_granting,
}
use cyber.Approval.Gate.{granted_approval, is_grant, latest}
use cyber.Targets.Policy.{enforce_policy, addresses_of, matches_any, matches_pattern, pattern_text}
use cyber.Targets.Classify.{validate_target, classify, classify_name, build, build_domain}
use cyber.Agent.Scan.{
  ScanAsset, assets_by_ids, scan_policy, canonical_from, add_target, add_once, canonical_targets,
  approved_scanners, scope_of, resolve_scope, plan_of, is_at_gate, authorize_and_plan,
  execute_scanners,
}
use cyber.Agent.Authorized.{IsApproved, scan_authorized}
use cyber.Agent.Graph.{
  Channels, plan, recon, discover_assets, request_approval, execute_scanners as scanners_node,
  generate_report, node_eq, is_interrupt, edge, route_after_discovery, active_scanners,
  depth_or_standard, depth_named, depth_scanners,
}
use cyber.Agent.Pipeline.{PathTo, begin, follow, passed, HasScope, PathTo-HasScope, passed_bounded}
use cyber.Tests.Approvals.{unary, answered}
use cyber.Tests.Ranges.{numbers, domains, strict}

abbrev waiting : Assessment
waiting = record {
  id = 1;
  organization_id = 7;
  status = scanning;
  current_stage = approval;
  progress_percent = 50;
  started_at = some 10;
  completed_at = none;
  failure_reason = none;
  degradations = [];
}

abbrev hosts : List ScanAsset
hosts =
    record { id = 2; organization_id = 7; name = codes "a.example" }
    ∷ record { id = 3; organization_id = 7; name = codes "b.example" }
    ∷ record { id = 3; organization_id = 8; name = codes "c.example" }
    ∷ []

abbrev only_job : List (ScannerName × List Text)
only_job = (nmap, codes "b.example" ∷ []) ∷ []

scans_one :
    execute_scanners unary numbers domains false 200 waiting (answered ∷ []) hosts none strict
    ≡ ok (only_job, set_given_stage waiting (some AssessmentStage.scan_nmap))
unfolding execute_scanners authorize_and_plan is_at_gate granted_approval is_grant latest
    resolve_scope approved_scanners approval_targets parse_all is_granting scanner_value
    assets_by_ids select canonical_targets canonical_from add_target add_once scan_policy
    validate_target classify classify_name build build_domain enforce_policy scope_of plan_of
    transition addresses_of matches_any matches_pattern pattern_text
scans_one = refl

scan_authorized_example :
    (g : Approval) × (granted_approval 1 scan_scope (answered ∷ []) ≡ some g)
    × (contains (scanner_value nmap) (approval_targets unary g).1 ≡ true)
    × All
        (IsApproved unary numbers domains 7 hosts (scan_policy none strict) g)
        (codes "b.example" ∷ [])
scan_authorized_example =
    scan_authorized unary numbers domains false 200 waiting (answered ∷ []) hosts none strict
      only_job (set_given_stage waiting (some AssessmentStage.scan_nmap)) scans_one nmap
      (codes "b.example" ∷ []) (Memᴰ.head refl)

abbrev selected : Channels
selected = record { depth = some (codes "deep"); selected_asset_ids = codes "II" ∷ [] }

-- The edge of the discovery, with an asset selected.
discovered : edge selected discover_assets ≡ some request_approval
unfolding edge route_after_discovery active_scanners depth_or_standard depth_named depth_scanners
discovered = refl

abbrev to_discovery : PathTo discover_assets
to_discovery =
    let planned : PathTo plan = follow {next = plan} begin selected (unfold edge in refl) in
    let known : PathTo recon = follow {next = recon} planned selected (unfold edge in refl) in
    follow {next = discover_assets} known selected (unfold edge in refl)

abbrev to_scanners : PathTo scanners_node
to_scanners =
    let asked : PathTo request_approval = follow to_discovery selected discovered in
    follow {next = scanners_node} asked selected (unfold edge in refl)

PathTo-HasScope_example :
    HasScope to_scanners
    × (contains request_approval (passed to_scanners) ≡ true)
    × (is_interrupt scanners_node ≡ true)
PathTo-HasScope_example = PathTo-HasScope to_scanners

passed_bounded_example :
    (length (passed to_scanners) ≤ 14)
    × ((edge selected scanners_node ≡ none) ↔ (scanners_node ≡ generate_report))
passed_bounded_example = passed_bounded to_scanners selected
