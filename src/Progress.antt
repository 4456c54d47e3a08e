-- ===== src/Progress.antt =====
-- backend/app/services/progress.py: the percentage of a stage, the checklist that the tracker
-- shows, and the percentage of a checklist.
pub mod Checklist
pub mod Percent
pub mod Recorded
pub mod Settled
use Prim.Native.String.{String}
use text.Mathlib.Text.{◌==◌ as str_eq}
use cyber.Base.{
  ℕ, zero, suc, ◌+◌, ◌*◌, ◌/◌, Bool, true, false, ◌&&◌, ◌||◌, not, Option, none, some, List, [],
  ◌∷◌, Comparable, contains, leb, ltb, if◌then◌else◌, is_some, length, max, eq_by, get_elem?, refl,
  ◌≡◌,
}
use cyber.Assessment.Status.{
  AssessmentStatus, created, discovery, waiting_for_approval, scanning, analyzing, remediating,
  completed, cancelling, cancelled, failed, all_statuses, status_value, status_eq, is_terminal,
}
use cyber.Assessment.Stage.{
  AssessmentStage, queued, understanding, validating, authorizing, recon, asset_analysis, approval,
  scan_nmap, scan_nuclei, scan_zap, ai_analysis, remediation, done, all_stages, stage_order,
  stage_value, stage_eq, stage_code,
}

-- `xs.index(x)`; `none` stands for the `ValueError`.
abbrev pub index_of {ℓ} : {A : Type ℓ} ⦃e : Comparable A⦄ → A → List A → Option ℕ
index_of x [] = none
index_of ⦃e⦄ x (y ∷ ys) =
    if e.equals x y then some 0 else elim (index_of x ys) [ none ↦ none | some i ↦ some (suc i) ]

-- The member of an enumeration with this value.
pub find_value {ℓ} : {A : Type ℓ} → (A → String) → String → List A → Option A
find_value value raw [] = none
find_value value raw (x ∷ xs) = if str_eq (value x) raw then some x else find_value value raw xs

-- `percent_for`; `int(index * 100 / n)` rounds a number that is not negative down.
unfoldable pub percent_for : AssessmentStage → ℕ
percent_for done = 100
percent_for queued = 0
percent_for stage = elim (index_of stage stage_order) [
  | none ↦ 0
  | some index ↦ index * 100 / length stage_order
]

-- `AssessmentStage(raw)`, the member whose value is the text, with `None` for the `ValueError`;
-- so `_stage_or_none`.
unfoldable pub stage_or_none : String → Option AssessmentStage
unfolding find_value stage_value
stage_or_none raw = find_value stage_value raw all_stages

-- `_status_or_none`
unfoldable pub status_or_none : String → Option AssessmentStatus
unfolding find_value status_value
status_or_none raw = find_value status_value raw all_statuses

-- `percent_for_value`, of a column that may be null or hold an unknown text.
unfoldable pub percent_for_value : Option String → ℕ
unfolding stage_or_none percent_for
percent_for_value none = 0
percent_for_value (some raw) = elim (stage_or_none raw) [ none ↦ 0 | some s ↦ percent_for s ]

-- `_STATUS_STAGE` and `stage_for_status`
unfoldable pub stage_for_status : AssessmentStatus → AssessmentStage
stage_for_status created = queued
stage_for_status AssessmentStatus.planning = AssessmentStage.planning
stage_for_status discovery = recon
stage_for_status waiting_for_approval = approval
stage_for_status scanning = scan_nmap
stage_for_status analyzing = ai_analysis
stage_for_status remediating = remediation
stage_for_status completed = done
stage_for_status cancelling = queued
stage_for_status cancelled = queued
stage_for_status failed = queued
