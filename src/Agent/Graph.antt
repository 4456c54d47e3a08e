-- ===== src/Agent/Graph.antt =====
-- backend/app/agent/graph.py and backend/app/scanners/registry.py: the nodes of the pipeline, its one
-- branch, and the node that is marked for an interrupt. The graph library, which runs the nodes, stops before
-- one that is marked and keeps checkpoints, is not modelled.
use cyber.Base.{
  ℕ, ◌≡◌, refl, Bool, true, false, Option, none, some, List, [], ◌∷◌, if◌then◌else◌, Comparable,
  eq_by, get_elem?, Text, codes, text_same,
}
use cyber.Approval.Data.{ScannerName, nmap, nuclei, zap}
use cyber.Targets.Policy.{is_empty}

-- `AssessmentDepth`
pub data AssessmentDepth : Type 0 where
  passive standard deep : AssessmentDepth

-- `AssessmentDepth(text)`
unfoldable pub depth_named : Text → Option AssessmentDepth
depth_named t =
    if text_same t (codes "passive")
    then some passive
    else if text_same t (codes "standard")
    then some standard
    else if text_same t (codes "deep")
    then some deep
    else none

-- `_DEPTH_SCANNERS`
unfoldable pub depth_scanners : AssessmentDepth → List ScannerName
depth_scanners passive = []
depth_scanners standard = nmap ∷ nuclei ∷ zap ∷ []
depth_scanners deep = nmap ∷ nuclei ∷ zap ∷ []

-- `active_scanners`
unfoldable pub active_scanners : Text → List ScannerName
active_scanners depth = elim (depth_named depth) [
  | none ↦ depth_scanners standard
  | some d ↦ depth_scanners d
]

-- The names of `_NODES`.
pub data Node : Type 0 where
  understand plan recon discover_assets request_approval execute_scanners import_findings
        enrich_intelligence attack_path analyze_findings prioritize_findings remediate_findings
        create_actions generate_report :
      Node

-- `_NODES`
abbrev pub nodes : List Node
nodes =
    understand ∷ plan ∷ recon ∷ discover_assets ∷ request_approval ∷ execute_scanners
    ∷ import_findings ∷ enrich_intelligence ∷ attack_path ∷ analyze_findings ∷ prioritize_findings
    ∷ remediate_findings ∷ create_actions ∷ generate_report ∷ []

abbrev pub place : Node → ℕ
place understand = 0
place plan = 1
place recon = 2
place discover_assets = 3
place request_approval = 4
place execute_scanners = 5
place import_findings = 6
place enrich_intelligence = 7
place attack_path = 8
place analyze_findings = 9
place prioritize_findings = 10
place remediate_findings = 11
place create_actions = 12
place generate_report = 13

pub get_elem?-place : (n : Node) → get_elem? nodes (place n) ≡ some n
get_elem?-place understand = refl
get_elem?-place _ = refl

instance abbrev pub node_eq : Comparable Node
node_eq = eq_by nodes place get_elem?-place

-- The channels that the branch reads; a depth that is missing or empty is no depth.
pub record Channels : Type 0 where
  pub depth : Option Text
  pub selected_asset_ids : List Text

-- `state.get("depth") or "standard"`
unfoldable pub depth_or_standard : Option Text → Text
depth_or_standard none = codes "standard"
depth_or_standard (some []) = codes "standard"
depth_or_standard (some (c ∷ t)) = c ∷ t

-- `route_after_discovery`
unfoldable pub route_after_discovery : Channels → Node
route_after_discovery s =
    if is_empty (active_scanners (depth_or_standard s.depth))
    then analyze_findings
    else if is_empty s.selected_asset_ids
    then analyze_findings
    else request_approval

-- The edges of `build_graph`; `none` is `END`.
unfoldable pub edge : Channels → Node → Option Node
edge s understand = some plan
edge s plan = some recon
edge s recon = some discover_assets
edge s discover_assets = some (route_after_discovery s)
edge s request_approval = some execute_scanners
edge s execute_scanners = some import_findings
edge s import_findings = some enrich_intelligence
edge s enrich_intelligence = some attack_path
edge s attack_path = some analyze_findings
edge s analyze_findings = some prioritize_findings
edge s prioritize_findings = some remediate_findings
edge s remediate_findings = some create_actions
edge s create_actions = some generate_report
edge s generate_report = none

-- `interrupt_before=[_SCANNER_NODE]`
unfoldable pub is_interrupt : Node → Bool
is_interrupt execute_scanners = true
is_interrupt _ = false
