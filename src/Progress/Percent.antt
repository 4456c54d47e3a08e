-- ===== src/Progress/Percent.antt =====
-- The percentage of a stage, and the texts that stand for stages in the database.
use cyber.Base.{◌-◌, ◌*◌, ◌/◌, ◌≤◌, ◌<◌, ◌≡◌, ◌↔◌, refl, true, some, arith, contains}
use cyber.Assessment.Status.{AssessmentStatus, created, status_value}
use cyber.Assessment.Stage.{
  AssessmentStage, queued, understanding, done, stage_code, stage_value, stage_order, stage_eq,
}
use cyber.Progress.{percent_for, stage_or_none, status_or_none}

-- Every stage and every status is read back from the text that stands for it in the database.
pub stored_values :
    (stage : AssessmentStage) (status : AssessmentStatus)
    → (stage_or_none (stage_value stage) ≡ some stage)
      × (status_or_none (status_value status) ≡ some status)
unfolding stage_or_none status_or_none stage_value status_value
stored_values stage status = (stored_stage stage, stored_status status)
  where
    stored_stage : (s : AssessmentStage) → stage_or_none (stage_value s) ≡ some s
    stored_stage queued = refl
    stored_stage _ = refl

    stored_status : (s : AssessmentStatus) → status_or_none (status_value s) ≡ some s
    stored_status created = refl
    stored_status _ = refl

-- The percentage by the stage's place in the enumeration, which begins with `queued`.
percent_for_lem :
    (s : AssessmentStage)
    → contains s stage_order ≡ true
    → percent_for s ≡ (stage_code s - 1) * 100 / 17
unfolding percent_for
percent_for_lem understanding h = refl
percent_for_lem _ h = ground arith

ordered_pos : (s : AssessmentStage) → contains s stage_order ≡ true → 0 < stage_code s
ordered_pos queued h = ground arith
ordered_pos _ h = omega arith

-- The percentage never passes 100, and it is 100 for the stage `done` alone.
pub percent_for_bounds :
    (s : AssessmentStage) → (percent_for s ≤ 100) × ((percent_for s ≡ 100) ↔ (s ≡ done))
unfolding percent_for
percent_for_bounds queued = ground arith
percent_for_bounds _ = ground arith

-- Of two stages of the checklist's order the later one has the larger percentage.
pub percent_for_mono :
    (s t : AssessmentStage)
    → contains s stage_order ≡ true
    → contains t stage_order ≡ true
    → stage_code s < stage_code t
    → percent_for s < percent_for t
percent_for_mono s t hs ht h =
    omega (arith, percent_for_lem s hs, percent_for_lem t ht, ordered_pos s hs)
