-- ===== src/Finding/Status.antt =====
-- The rules on a finding's status: `_status_for`, `_analysis_skip_reason`.
use cyber.Base.{
  ◌≤◌, ◌≡◌, ◌⊎◌, Bool, true, false, not, ◌||◌, ◌&&◌, Option, none, some, arith, if◌then◌else◌, ltb,
  ◌↔◌,
}
use cyber.Finding.Data.{
  Severity, severity_rank, FindingStatus, active, verified, false_positive, risk_accepted,
  out_of_scope, mitigated, duplicate, Finding,
}

-- `DDFinding`, its independent flags
pub record DdFinding : Type 0 where
  pub active : Bool
  pub verified : Bool
  pub false_p : Bool
  pub duplicate : Bool
  pub risk_accepted : Bool
  pub out_of_scope : Bool
  pub is_mitigated : Bool

-- `_status_for`
unfoldable pub status_for : DdFinding → FindingStatus
status_for r =
    if r.false_p
    then false_positive
    else if r.out_of_scope
    then out_of_scope
    else if r.risk_accepted
    then risk_accepted
    else if r.duplicate
    then duplicate
    else if r.is_mitigated
    then mitigated
    else if r.verified
    then verified
    else if r.active
    then active
    else mitigated

-- `_OPEN_STATUSES`
unfoldable pub is_open_status : FindingStatus → Bool
is_open_status active = true
is_open_status verified = true
is_open_status _ = false

pub data SkipReason : Type 0 where
  noise closed below_floor : SkipReason

-- `_analysis_skip_reason`
unfoldable pub analysis_skip_reason :
    (floor : Severity) → (force : Bool) → Finding → Option SkipReason
analysis_skip_reason floor force f =
    if f.is_false_positive || f.is_duplicate
    then some noise
    else if not (is_open_status f.status)
    then some closed
    else if not force && ltb (severity_rank f.severity) (severity_rank floor)
    then some below_floor
    else none

-- An imported finding is open exactly when no judgement closes it and it is verified or active.
pub status_for-is_open :
    (r : DdFinding)
    → is_open_status (status_for r) ≡ (
        not (r.false_p || r.out_of_scope || r.risk_accepted || r.duplicate || r.is_mitigated)
        && (r.verified || r.active))
unfolding status_for is_open_status
status_for-is_open r = ground arith

-- A finding is analysed exactly when it is open, not noise, and either forced or at the severity
-- floor: forcing overrides the floor and nothing else.
pub analysis_skip_reason_iff :
    (floor : Severity) (force : Bool) (f : Finding)
    → (analysis_skip_reason floor force f ≡ none) ↔ (
        (f.is_false_positive ≡ false)
        × (f.is_duplicate ≡ false)
        × (is_open_status f.status ≡ true)
        × ((force ≡ true) ⊎ (severity_rank floor ≤ severity_rank f.severity)))
unfolding analysis_skip_reason
analysis_skip_reason_iff floor force f = ground arith
