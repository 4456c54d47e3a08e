-- ===== src/Progress/Settled.antt =====
-- How much of a checklist is settled.
use cyber.Base.{
  ℕ, suc, ◌+◌, ◌*◌, ◌/◌, ◌≤◌, ◌≡◌, ◌↔◌, inl, inr, refl, Bool, true, false, some, List, [], ◌∷◌,
  arith, All, Option-cases, length, map, All-Memᴰ,
}
use cyber.Assessment.Status.{AssessmentStatus, status_eq, is_terminal}
use cyber.Assessment.Stage.{AssessmentStage, stage_eq, stage_order}
use cyber.Progress.{status_or_none}
use cyber.Progress.Checklist.{
  Step, step_status, AssessmentLike, StageOut, ByStage, inferred, row_for, rows_from,
  stage_checklist, is_settled, count_settled, checklist_percent, index_steps,
}
use cyber.Progress.Recorded.{index_steps_lem}

abbrev pub IsSettled : StageOut → Type 0
IsSettled row = is_settled row.status ≡ true

count_settled-le : (rows : List StageOut) → count_settled rows ≤ length rows
count_settled-le [] = omega arith
count_settled-le (row ∷ rows) = ground (arith, count_settled-le rows)

count_settled-All : (rows : List StageOut) → (count_settled rows ≡ length rows) ↔ All IsSettled rows
count_settled-All [] = (λ _. tt, λ _. refl)
count_settled-All (row ∷ rows) = ground (arith, count_settled-le rows, count_settled-All rows)

share-le : (c n : ℕ) → c ≤ suc n → c * 100 / suc n ≤ 100
share-le c n h = grind arith

share_full : (c n : ℕ) → c ≤ suc n → (c * 100 / suc n ≡ 100) ↔ (c ≡ suc n)
share_full c n h = (λ e. grind arith, λ e. grind arith)

-- The percentage of a checklist never passes 100, and that of a checklist with rows is 100 exactly
-- when every row is settled.
pub checklist_percent_bounds :
    (row : StageOut) (rows : List StageOut)
    → (checklist_percent (row ∷ rows) ≤ 100)
      × ((checklist_percent (row ∷ rows) ≡ 100) ↔ All IsSettled (row ∷ rows))
unfolding checklist_percent
checklist_percent_bounds row rows =
    let le = count_settled-le (row ∷ rows) in
    let full = share_full (count_settled (row ∷ rows)) (length rows) le in
    let all = count_settled-All (row ∷ rows) in
    (
      share-le (count_settled (row ∷ rows)) (length rows) le,
      (λ e. all.0 (full.0 e), λ settled. full.1 (all.1 settled)),
    )

stage-row_for :
    (a : AssessmentLike) (by_stage : ByStage) (index : ℕ) (stage : AssessmentStage)
    → (row_for a by_stage index stage).stage ≡ stage
unfolding row_for
stage-row_for a by_stage index stage = ground arith

stages-rows_from :
    (a : AssessmentLike) (by_stage : ByStage) (index : ℕ) (stages : List AssessmentStage)
    → map (λ (row : StageOut). row.stage) (rows_from a by_stage index stages) ≡ stages
unfolding rows_from
stages-rows_from a by_stage index [] = refl
stages-rows_from a by_stage index (stage ∷ stages) =
    cc (stage-row_for a by_stage index stage, stages-rows_from a by_stage (index + 1) stages)

-- The checklist has one row for each stage of the order, in the order.
pub stages-stage_checklist :
    (a : AssessmentLike) (steps : List Step)
    → map (λ (row : StageOut). row.stage) (stage_checklist a steps) ≡ stage_order
unfolding stage_checklist
stages-stage_checklist a steps = stages-rows_from a (index_steps steps) 0 stage_order

inferred_completed :
    (skip current : Bool) (index current_index : ℕ)
    → is_settled (inferred (some AssessmentStatus.completed) skip current index current_index).0
      ≡ true
unfolding inferred is_settled is_terminal
inferred_completed true current index current_index = refl
inferred_completed false current index current_index = ground arith

module _ (a : AssessmentLike)
    (done : status_or_none a.status ≡ some AssessmentStatus.completed) where
  row_for-IsSettled :
      (by_stage : ByStage) (index : ℕ) (stage : AssessmentStage)
      → ((s : Step) → by_stage stage ≡ some s → is_settled (step_status s) ≡ true)
      → IsSettled (row_for a by_stage index stage)
  unfolding row_for
  row_for-IsSettled by_stage index stage steps = elim (Option-cases (by_stage stage)) [
    | inl e ↦ rw (e, row_for) (rw done (inferred_completed _ _ _ _))
    | inr (s, e) ↦ rw (e, row_for) (steps s e)
  ]

  rows_from-IsSettled :
      (by_stage : ByStage)
      → ((k : AssessmentStage) (s : Step) → by_stage k ≡ some s → is_settled (step_status s) ≡ true)
      → (index : ℕ) (stages : List AssessmentStage)
      → All IsSettled (rows_from a by_stage index stages)
  unfolding rows_from
  rows_from-IsSettled by_stage steps index [] = tt
  rows_from-IsSettled by_stage steps index (stage ∷ stages) = (
    row_for-IsSettled by_stage index stage (steps stage),
    rows_from-IsSettled by_stage steps (index + 1) stages,
  )

  -- A completed assessment whose recorded steps are all settled shows 100 percent, whatever
  -- stage its row names.
  pub completed_percent :
      (steps : List Step)
      → All (λ t. is_settled (step_status t) ≡ true) steps
      → checklist_percent (stage_checklist a steps) ≡ 100
  unfolding stage_checklist
  completed_percent steps settled = (checklist_percent_bounds _ _).1.1 (
      rows_from-IsSettled (index_steps steps)
        (λ k s e. All-Memᴰ _ steps settled ((index_steps_lem k steps).1 s e).1) 0 stage_order)
