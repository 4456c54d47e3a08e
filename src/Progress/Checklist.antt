-- ===== src/Progress/Checklist.antt =====
-- backend/app/services/progress.py: `stage_checklist` and `checklist_percent`.
use Prim.Native.String.{String}
use text.Mathlib.Text.{◌==◌ as str_eq}
use cyber.Base.{
  ℕ, suc, ◌+◌, ◌*◌, ◌/◌, Bool, true, false, ◌&&◌, not, Option, none, some, List, [], ◌∷◌, contains,
  leb, if◌then◌else◌, length,
}
use cyber.Assessment.Status.{AssessmentStatus, status_eq, is_terminal}
use cyber.Assessment.Stage.{
  AssessmentStage, scan_nmap, scan_nuclei, scan_zap, stage_order, stage_eq,
}
use cyber.Progress.{index_of, find_value, stage_or_none, status_or_none}

pub data StepStatus : Type 0 where
  pending running completed failed skipped degraded : StepStatus

unfoldable pub step_status_value : StepStatus → String
step_status_value pending = "pending"
step_status_value running = "running"
step_status_value completed = "completed"
step_status_value failed = "failed"
step_status_value skipped = "skipped"
step_status_value degraded = "degraded"

-- `_StepLike`, the fields read off an `agent_steps` row; times are numbers.
pub record Step : Type 0 where
  pub stage : Option String
  pub status : String
  pub label : Option String
  pub degradation_note : Option String
  pub failure_code : Option String
  pub started_at : Option ℕ
  pub completed_at : Option ℕ

-- `_AssessmentLike`
pub record AssessmentLike : Type 0 where
  pub status : String
  pub current_stage : String
  pub depth : String

-- `StageOut`, without the label, which `STAGE_LABELS` gives for the stage
pub record StageOut : Type 0 where
  pub stage : AssessmentStage
  pub status : StepStatus
  pub started_at : Option ℕ
  pub completed_at : Option ℕ
  pub detail : Option String

-- `_step_status`: an unknown text reads as pending.
unfoldable pub step_status : Step → StepStatus
unfolding find_value step_status_value
step_status step =
    elim (find_value step_status_value step.status
      (pending ∷ running ∷ completed ∷ failed ∷ skipped ∷ degraded ∷ [])) [
        | none ↦ pending
        | some s ↦ s
      ]

-- `_STEP_RANK`
unfoldable pub step_rank : StepStatus → ℕ
step_rank pending = 0
step_rank skipped = 1
step_rank running = 2
step_rank failed = 3
step_rank completed = 4
step_rank degraded = 5

-- `_rank`
unfoldable pub rank : Step → ℕ
rank step = step_rank (step_status step)

-- The stage that a step names, if it is one of `STAGE_ORDER`.
unfoldable pub named_stage : Step → Option AssessmentStage
unfolding stage_or_none
named_stage step = elim step.stage [
  | none ↦ none
  | some raw ↦ elim (stage_or_none raw) [
    | none ↦ none
    | some s ↦ if contains s stage_order then some s else none
  ]
]

-- Whether an optional text is there and not empty, as Python tests it.
abbrev pub is_text : Option String → Bool
is_text none = false
is_text (some s) = not (str_eq s "")

-- A dictionary from stages to steps.
abbrev pub ByStage : Type 0
ByStage = AssessmentStage → Option Step

-- `incumbent is None or _rank(step) >= _rank(incumbent)`
unfoldable pub replaces : Option Step → Step → Bool
replaces none step = true
replaces (some incumbent) step = leb (rank incumbent) (rank step)

-- `best[stage] = step`, where the step replaces the incumbent.
unfoldable pub keep_better : ByStage → Step → AssessmentStage → ByStage
keep_better best step stage key =
    if stage_eq.equals key stage && replaces (best stage) step then some step else best key

-- One round of the loop of `_index_steps`.
unfoldable pub record_step : ByStage → Step → ByStage
record_step best step = elim (named_stage step) [
  | none ↦ best
  | some stage ↦ keep_better best step stage
]

-- `_index_steps`
unfoldable pub index_steps_from : ByStage → List Step → ByStage
index_steps_from best [] = best
index_steps_from best (step ∷ steps) = index_steps_from (record_step best step) steps

unfoldable pub index_steps : List Step → ByStage
unfolding index_steps_from
index_steps steps = index_steps_from (λ _. none) steps

-- `_detail`; an empty text is no note.
unfoldable pub step_detail : Step → Option String
step_detail step =
    if is_text step.degradation_note
    then step.degradation_note
    else if is_text step.failure_code
    then step.failure_code
    else step.label

-- `_terminal_detail`
unfoldable pub terminal_detail : AssessmentStatus → Option String
terminal_detail AssessmentStatus.cancelled = some "Cancelled before this stage."
terminal_detail AssessmentStatus.failed = some "Not reached: the assessment failed earlier."
terminal_detail _ = none

-- `_ACTIVE_SCAN_STAGES`
abbrev pub active_scan_stages : List AssessmentStage
active_scan_stages = scan_nmap ∷ scan_nuclei ∷ scan_zap ∷ []

-- `_inapplicable_stages`
unfoldable pub inapplicable_stages : AssessmentLike → List AssessmentStage
inapplicable_stages a = if str_eq a.depth "passive" then active_scan_stages else []

-- What a stage with no recorded step is shown as: the branches of `stage_checklist`, over the
-- stage's index, the index of the current stage (0 where it is not in the order, since the code
-- compares with `max(current_index, 0)`), and whether the stage is the current one.
unfoldable pub inferred :
    (status : Option AssessmentStatus) (skip current : Bool) (index current_index : ℕ)
    → StepStatus × Option String
inferred status true current index current_index =
    (skipped, some "Not applicable for this assessment depth.")
inferred none false current index current_index = (pending, none)
inferred (some status) false current index current_index =
    if current && not (is_terminal status)
    then (running, none)
    else if status_eq.equals status AssessmentStatus.completed
    then (completed, none)
    else if is_terminal status && leb current_index index
    then (skipped, terminal_detail status)
    else (pending, none)

-- `stage is current`
unfoldable pub is_current : Option AssessmentStage → AssessmentStage → Bool
is_current none stage = false
is_current (some current) stage = stage_eq.equals stage current

-- `max(current_index, 0)`, where `current_index` is -1 for a stage outside the order.
unfoldable pub reached_index : Option AssessmentStage → ℕ
reached_index none = 0
reached_index (some current) = elim (index_of current stage_order) [ none ↦ 0 | some i ↦ i ]

-- One row of the checklist.
unfoldable pub row_for : AssessmentLike → ByStage → ℕ → AssessmentStage → StageOut
row_for a by_stage index stage = elim (by_stage stage) [
  | some step ↦ record {
    stage = stage;
    status = step_status step;
    started_at = step.started_at;
    completed_at = step.completed_at;
    detail = step_detail step;
  }
  | none ↦
      let current = stage_or_none a.current_stage in
      let shown =
        inferred (status_or_none a.status) (contains stage (inapplicable_stages a))
          (is_current current stage) index (reached_index current) in
      record {
        stage = stage;
        status = shown.0;
        started_at = none;
        completed_at = none;
        detail = shown.1;
      }
]

-- The loop of `stage_checklist` over `enumerate(STAGE_ORDER)`.
unfoldable pub rows_from : AssessmentLike → ByStage → ℕ → List AssessmentStage → List StageOut
rows_from a by_stage index [] = []
rows_from a by_stage index (stage ∷ stages) =
    row_for a by_stage index stage ∷ rows_from a by_stage (index + 1) stages

unfoldable pub stage_checklist : AssessmentLike → List Step → List StageOut
unfolding rows_from
stage_checklist a steps = rows_from a (index_steps steps) 0 stage_order

-- A row that counts as settled.
unfoldable pub is_settled : StepStatus → Bool
is_settled completed = true
is_settled skipped = true
is_settled degraded = true
is_settled _ = false

abbrev pub count_settled : List StageOut → ℕ
count_settled [] = 0
count_settled (row ∷ rows) =
    let rest = count_settled rows in if is_settled row.status then suc rest else rest

unfoldable pub checklist_percent : List StageOut → ℕ
checklist_percent [] = 0
checklist_percent (row ∷ rows) = count_settled (row ∷ rows) * 100 / length (row ∷ rows)
