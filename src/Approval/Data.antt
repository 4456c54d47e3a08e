-- ===== src/Approval/Data.antt =====
-- An approval's row, what it proposes and what it grants.
use Prim.Native.String.{String}
use text.Mathlib.Text.{◌==◌ as str_eq}
use text.Mathlib.TextEquality.{eq_iff}
use cyber.Base.{
  ℕ, ◌≡◌, refl, Bool, true, false, Option, none, some, List, [], ◌∷◌, contains, keep, Comparable,
  eq_by, get_elem?, if◌then◌else◌,
}
use cyber.Repository.{Tenanted}

instance abbrev pub string_eq : Comparable String
string_eq = record { equals = str_eq; equals_iff = eq_iff }

pub data ApprovalDecision : Type 0 where
  pending approved approved_all customized rejected expired : ApprovalDecision

pub data ApprovalKind : Type 0 where
  scan_scope high_risk_tool remediation_apply ticket_bulk_create : ApprovalKind

abbrev pub kind_code : ApprovalKind → ℕ
kind_code scan_scope = 0
kind_code high_risk_tool = 1
kind_code remediation_apply = 2
kind_code ticket_bulk_create = 3

abbrev pub all_kinds : List ApprovalKind
all_kinds = scan_scope ∷ high_risk_tool ∷ remediation_apply ∷ ticket_bulk_create ∷ []

pub get_elem?-kind_code : (k : ApprovalKind) → get_elem? all_kinds (kind_code k) ≡ some k
get_elem?-kind_code scan_scope = refl
get_elem?-kind_code _ = refl

instance abbrev pub kind_eq : Comparable ApprovalKind
kind_eq = eq_by all_kinds kind_code get_elem?-kind_code

pub data RiskLevel : Type 0 where
  low medium high forbidden : RiskLevel

pub data ScannerName : Type 0 where
  reconftw nmap nuclei zap : ScannerName

unfoldable pub scanner_value : ScannerName → String
scanner_value reconftw = "reconftw"
scanner_value nmap = "nmap"
scanner_value nuclei = "nuclei"
scanner_value zap = "zap"

-- `ScannerName.values()`
abbrev pub scanner_values : List String
scanner_values = "reconftw" ∷ "nmap" ∷ "nuclei" ∷ "zap" ∷ []

-- Python's `uuid` module: an identifier is a number, `parse` is `uuid.UUID(text)` with `none` for
-- its `ValueError`, and `text` is `str(id)`, which it reads back.
pub record Uuid : Type 0 where
  pub parse : String → Option ℕ
  pub text : ℕ → String
  pub parse-text : (n : ℕ) → parse (text n) ≡ some n

-- `requested_payload` and `approved_payload`; a key that is missing is an empty list or `none`.
pub record Payload : Type 0 where
  pub asset_ids : List String
  pub scanners : List String
  pub decision : Option ApprovalDecision
  pub depth : Option String
  pub rate_limit : Option ℕ

-- `{}`
abbrev pub no_payload : Payload
no_payload = record {
  asset_ids = [];
  scanners = [];
  decision = none;
  depth = none;
  rate_limit = none;
}

pub record Approval : Type 0 where
  pub id : ℕ
  pub organization_id : ℕ
  pub assessment_id : ℕ
  pub kind : ApprovalKind
  pub decision : ApprovalDecision
  pub requested_payload : Payload
  pub approved_payload : Payload
  pub risk_level : RiskLevel
  pub created_at : ℕ
  pub expires_at : Option ℕ
  pub resolved_at : Option ℕ
  pub resolved_by_id : Option ℕ
  pub resolution_note : Option String

instance abbrev pub approval_tenanted : Tenanted Approval
approval_tenanted = record {
  id = λ a. a.id;
  organization_id = λ a. a.organization_id;
  stamp = λ o a. record a { organization_id = o };
  organization_id-stamp = λ o a. refl;
  id-stamp = λ o a. refl;
}

-- `ApproveIn.decision`, the four literals that a client may send.
pub data Answer : Type 0 where
  approved approved_all customized rejected : Answer

-- `ApproveIn`
pub record ApproveIn : Type 0 where
  pub decision : Answer
  pub asset_ids : Option (List ℕ)
  pub scanners : Option (List ScannerName)
  pub note : Option String

-- `ApprovalDecision(payload.decision)`
unfoldable pub decision_of : Answer → ApprovalDecision
decision_of Answer.approved = ApprovalDecision.approved
decision_of Answer.approved_all = ApprovalDecision.approved_all
decision_of Answer.customized = ApprovalDecision.customized
decision_of Answer.rejected = ApprovalDecision.rejected

-- `_GRANTING_DECISIONS`, and `Approval.is_granted`
unfoldable pub is_granting : ApprovalDecision → Bool
is_granting ApprovalDecision.approved = true
is_granting ApprovalDecision.approved_all = true
is_granting ApprovalDecision.customized = true
is_granting _ = false

unfoldable pub is_pending : ApprovalDecision → Bool
is_pending pending = true
is_pending _ = false

module _ (u : Uuid) where
  -- The identifiers among the texts, in order; the others are skipped.
  unfoldable pub parse_all : List String → List ℕ
  parse_all [] = []
  parse_all (t ∷ ts) =
      let rest = parse_all ts in elim (u.parse t) [ none ↦ rest | some n ↦ n ∷ rest ]

  -- `_requested_asset_ids`
  unfoldable pub requested_asset_ids : Approval → List ℕ
  requested_asset_ids a = parse_all a.requested_payload.asset_ids

  -- `approval_targets`
  unfoldable pub approval_targets : Approval → List ℕ × List String
  approval_targets a =
      if is_granting a.decision
      then (
        parse_all a.approved_payload.asset_ids,
        keep (λ s. contains s scanner_values) a.approved_payload.scanners,
      )
      else ([], [])

-- `_requested_scanners`
unfoldable pub requested_scanners : Approval → List String
requested_scanners a = keep (λ s. contains s scanner_values) a.requested_payload.scanners
