-- ===== src/Tests/Tracker.antt =====
-- backend/app/services/progress.py on concrete steps.
use cyber.Base.{◌≡◌, refl, none, some, [], ◌∷◌, map}
use cyber.Assessment.Stage.{recon, stage_order}
use cyber.Progress.{percent_for, stage_or_none, status_or_none}
use cyber.Progress.Checklist.{
  Step, AssessmentLike, StageOut, named_stage, step_status, index_steps, stage_checklist,
  is_settled, checklist_percent, StepStatus,
}
use cyber.Progress.Settled.{stages-stage_checklist}

abbrev attempt : Step
attempt = record {
  stage = some "reconnaissance";
  status = "failed";
  label = none;
  degradation_note = none;
  failure_code = some "scanner_timeout";
  started_at = some 10;
  completed_at = some 20;
}

abbrev retry : Step
retry = record attempt {
  status = "degraded";
  failure_code = none;
  degradation_note = some "no DNS";
}

abbrev done_row : AssessmentLike
done_row = record { status = "COMPLETED"; current_stage = "done"; depth = "passive" }

-- The retry speaks for the stage, though it was recorded first.
retry_wins : index_steps (retry ∷ attempt ∷ []) recon ≡ some retry
unfolding index_steps cyber.Progress.Checklist.record_step named_stage
    cyber.Progress.Checklist.keep_better cyber.Progress.Checklist.replaces
    cyber.Progress.Checklist.rank step_status cyber.Progress.Checklist.step_rank
retry_wins = refl

stages-stage_checklist_example :
    map (λ (row : StageOut). row.stage) (stage_checklist done_row (retry ∷ [])) ≡ stage_order
stages-stage_checklist_example = stages-stage_checklist done_row (retry ∷ [])

abbrev settled_row : StageOut
settled_row = record {
  stage = recon;
  status = StepStatus.skipped;
  started_at = none;
  completed_at = none;
  detail = none;
}
