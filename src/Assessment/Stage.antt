-- ===== src/Assessment/Stage.antt =====
-- backend/app/db/enums.py: the stages of an assessment, which are finer than its statuses.
use Prim.Native.String.{String}
use cyber.Base.{ℕ, ◌≡◌, refl, some, List, [], ◌∷◌, get_elem?, Comparable, eq_by}

pub data AssessmentStage : Type 0 where
  queued understanding validating authorizing planning recon asset_analysis approval scan_nmap
        scan_nuclei scan_zap import_findings enrich ai_analysis prioritize remediation actions
        report done :
      AssessmentStage

-- The place of a stage in the enumeration.
abbrev pub stage_code : AssessmentStage → ℕ
stage_code queued = 0
stage_code understanding = 1
stage_code validating = 2
stage_code authorizing = 3
stage_code planning = 4
stage_code recon = 5
stage_code asset_analysis = 6
stage_code approval = 7
stage_code scan_nmap = 8
stage_code scan_nuclei = 9
stage_code scan_zap = 10
stage_code import_findings = 11
stage_code enrich = 12
stage_code ai_analysis = 13
stage_code prioritize = 14
stage_code remediation = 15
stage_code actions = 16
stage_code report = 17
stage_code done = 18

-- The string that the database stores.
unfoldable pub stage_value : AssessmentStage → String
stage_value queued = "queued"
stage_value understanding = "understanding_request"
stage_value validating = "validating_target"
stage_value authorizing = "checking_authorization"
stage_value planning = "planning"
stage_value recon = "reconnaissance"
stage_value asset_analysis = "asset_analysis"
stage_value approval = "awaiting_approval"
stage_value scan_nmap = "scanning_nmap"
stage_value scan_nuclei = "scanning_nuclei"
stage_value scan_zap = "scanning_zap"
stage_value import_findings = "importing_findings"
stage_value enrich = "threat_intelligence"
stage_value ai_analysis = "ai_analysis"
stage_value prioritize = "risk_prioritization"
stage_value remediation = "remediation"
stage_value actions = "creating_actions"
stage_value report = "report"
stage_value done = "done"

-- `STAGE_ORDER`
abbrev pub stage_order : List AssessmentStage
stage_order =
    understanding ∷ validating ∷ authorizing ∷ planning ∷ recon ∷ asset_analysis ∷ approval
    ∷ scan_nmap ∷ scan_nuclei ∷ scan_zap ∷ import_findings ∷ enrich ∷ ai_analysis ∷ prioritize
    ∷ remediation ∷ actions ∷ report ∷ []

-- Every stage, in the order of the enumeration.
abbrev pub all_stages : List AssessmentStage
all_stages =
    queued ∷ understanding ∷ validating ∷ authorizing ∷ planning ∷ recon ∷ asset_analysis ∷ approval
    ∷ scan_nmap ∷ scan_nuclei ∷ scan_zap ∷ import_findings ∷ enrich ∷ ai_analysis ∷ prioritize
    ∷ remediation ∷ actions ∷ report ∷ done ∷ []

pub get_elem?-stage_code : (s : AssessmentStage) → get_elem? all_stages (stage_code s) ≡ some s
get_elem?-stage_code queued = refl
get_elem?-stage_code _ = refl

instance abbrev pub stage_eq : Comparable AssessmentStage
stage_eq = eq_by all_stages stage_code get_elem?-stage_code
