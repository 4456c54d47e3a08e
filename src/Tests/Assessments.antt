-- ===== src/Tests/Assessments.antt =====
-- backend/app/services/assessment.py on concrete rows.
use cyber.Base.{◌≡◌, ◌≢◌, ◌↔◌, refl, false, none, some, [], ◌∷◌, arith, contains, codes}
use cyber.Base.Errors.{conflict, ok, err}
use cyber.Identity.{require, permissions, assessment_cancel, assessment_read}
use cyber.Assessment.Status.{
  created, planning, scanning, failed, is_terminal, status_eq, allowed_transitions,
}
use cyber.Assessment.Stage.{AssessmentStage, queued, scan_nuclei}
use cyber.Progress.{percent_for, stage_for_status}
use cyber.Assessment.Service.{Assessment, assessment_tenanted, move, transition, record_degradation}
use cyber.Assessment.Transition.{IsConsistent, transition_iff}
use cyber.Assessment.Lifecycle.{Run, here, moved, noted, Run-IsConsistent, Run_terminal}
use cyber.Tests.Identities.{engineer}

abbrev pub fresh : Assessment
fresh = record {
  id = 4;
  organization_id = 7;
  status = created;
  current_stage = queued;
  progress_percent = 0;
  started_at = none;
  completed_at = none;
  failure_reason = none;
  degradations = [];
}

abbrev pub in_scan : Assessment
in_scan = record fresh {
  status = scanning;
  current_stage = scan_nuclei;
  progress_percent = 47;
  started_at = some 100;
}

abbrev failed_scan : Assessment
failed_scan = record in_scan {
  status = failed;
  current_stage = queued;
  progress_percent = 0;
  completed_at = some 150;
  failure_reason = some (codes "disk full");
}

abbrev moved_on : Assessment
moved_on = record fresh {
  status = planning;
  current_stage = AssessmentStage.planning;
  progress_percent = 17;
  started_at = some 100;
}

starts : transition 100 fresh planning none none ≡ ok moved_on
unfolding transition move is_terminal allowed_transitions percent_for
starts = refl

fails : transition 150 in_scan failed none (some (codes "disk full")) ≡ ok failed_scan
unfolding transition move is_terminal allowed_transitions percent_for stage_for_status
fails = refl

-- A scan that has failed is not resumed.
no_resume : transition 160 failed_scan scanning none none ≡ err conflict
unfolding transition allowed_transitions
no_resume = refl

transition_iff_example :
    ((transition 160 failed_scan scanning none none ≡ err conflict)
      ↔ ((failed ≢ scanning) × (contains scanning (allowed_transitions failed) ≡ false)))
    × ((b : Assessment)
        → transition 160 failed_scan scanning none none ≡ ok b
        → b.status ≡ scanning)
transition_iff_example = transition_iff 160 failed_scan scanning none none

fresh-IsConsistent : IsConsistent fresh
unfolding percent_for is_terminal
fresh-IsConsistent = ground arith

abbrev started : Run fresh moved_on
started = moved here 100 planning none none starts

Run-IsConsistent_example : IsConsistent moved_on
Run-IsConsistent_example = Run-IsConsistent fresh-IsConsistent started

abbrev noted_late : Run failed_scan (record_degradation 170 failed_scan [] [] [] []).0
noted_late = noted here 170 [] [] [] [] refl

Run_terminal_example :
    ((record_degradation 170 failed_scan [] [] [] []).0.status ≡ failed)
    × ((record_degradation 170 failed_scan [] [] [] []).0.completed_at ≡ some 150)
    × ((record_degradation 170 failed_scan [] [] [] []).0.failure_reason ≡ some (codes "disk full"))
Run_terminal_example = Run_terminal (unfold is_terminal in refl) noted_late

may :
    (require engineer (assessment_cancel ∷ []) ≡ ok tt)
    × (require engineer (assessment_read ∷ []) ≡ ok tt)
unfolding require permissions
may = (refl, refl)
