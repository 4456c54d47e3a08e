-- ===== src/Assessment/Stopping.antt =====
-- How an assessment is cancelled, and what the tracker shows of one that failed.
use Prim.Native.String.{String}
use cyber.Base.{
  ℕ, ◌≡◌, ◌≢◌, inl, inr, refl, Bool, true, false, Option, none, some, List, [], ◌∷◌, arith,
  contains, Text, All, ◌+◌,
}
use cyber.Base.Errors.{conflict, ok, err}
use cyber.Identity.{Principal, assessment_cancel, assessment_read, require}
use cyber.Repository.{get, get_or_404}
use cyber.Repository.Isolation.{get_or_404_found}
use cyber.Audit
use cyber.Audit.{AuditEvent, record_event}
use cyber.Assessment.Status.{
  AssessmentStatus, created, failed, cancelling, status_eq, is_terminal, allowed_transitions,
  status_value,
}
use cyber.Assessment.Stage.{AssessmentStage, queued, stage_value, stage_order, stage_eq}
use cyber.Progress.{percent_for, stage_for_status, stage_or_none, status_or_none}
use cyber.Progress.Percent.{stored_values}
use cyber.Progress.Checklist.{
  AssessmentLike, stage_checklist, checklist_percent, inferred, is_settled, row_for, rows_from,
  index_steps, is_current, reached_index,
}
use cyber.Progress.Settled.{IsSettled, checklist_percent_bounds}
use cyber.Assessment.Service.{
  Assessment, assessment_tenanted, move, transition, cancel_assessment, cancel_reason,
}
use cyber.Assessment.Transition.{transition_cases, transition_iff}

cancelling_allowed :
    (s : AssessmentStatus)
    → is_terminal s ≡ false
    → s ≢ cancelling
    → contains cancelling (allowed_transitions s) ≡ true
unfolding is_terminal allowed_transitions
cancelling_allowed created h ne = refl
cancelling_allowed _ h ne = ground arith

cancelling_refused :
    (s : AssessmentStatus)
    → is_terminal s ≡ true
    → (s ≢ cancelling) × (contains cancelling (allowed_transitions s) ≡ false)
unfolding is_terminal allowed_transitions
cancelling_refused created h = cc
cancelling_refused _ h = ground arith

cancelling_succeeds :
    (now : ℕ) (a : Assessment) (reason : Option Text)
    → is_terminal a.status ≡ false
    → (b : Assessment) × (transition now a cancelling none reason ≡ ok b) × (b.status ≡ cancelling)
cancelling_succeeds now a reason live = elim (transition_cases now a cancelling none reason) [
  | inl (same, e) ↦ (_, e, (transition_iff now a cancelling none reason).1 _ e)
  | inr (inl (differ, listed, e)) ↦ (_, e, (transition_iff now a cancelling none reason).1 _ e)
  | inr (inr (differ, unlisted, e)) ↦ cc (cancelling_allowed a.status live differ)
]

module _ (now : ℕ) (p : Principal) (id : ℕ) (table : List Assessment) (reason : Option Text)
    (a : Assessment) (may_cancel : require p (assessment_cancel ∷ []) ≡ ok tt)
    (may_read : require p (assessment_read ∷ []) ≡ ok tt)
    (found : get p.organization_id id table ≡ some a) where
  -- Cancelling, by someone who may cancel and read, an assessment that is found: one that is not
  -- over moves to `cancelling`, and the audit row names the actor and the assessment; one that is
  -- over is left alone, and the operator is told of the conflict.
  pub cancel_assessment_lem :
      (is_terminal a.status ≡ true → cancel_assessment now p id table reason ≡ err conflict)
      × (is_terminal a.status ≡ false
          → (b : Assessment) × (event : AuditEvent) × (cancel_assessment now p id table reason
              ≡ ok (b, event))
            × (b.status ≡ cancelling)
            × (event.actor_id ≡ p.user_id)
            × (event.resource_id ≡ some a.id))
  unfolding cancel_assessment record_event
  cancel_assessment_lem = (
    λ over.
        let refused =
          (transition_iff now a cancelling none why).0.1 (cancelling_refused a.status over) in
        rw (may_cancel, may_read, here, refused),
    λ live.
        let (b, e, lands) = cancelling_succeeds now a why live in
        (
          b,
          record_event now Audit.assessment_cancel (some p) none (some a.id) Audit.success,
          rw (may_cancel, may_read, here, e),
          lands,
          refl,
          refl,
        ),
  )
    where
      why : Option Text
      why = some (cancel_reason reason)

      here : get_or_404 p.organization_id id table ≡ ok a
      here = get_or_404_found p.organization_id id table found

-- The row as the tracker reads it, at some depth.
abbrev pub tracked : String → Assessment → AssessmentLike
tracked depth a = record {
  status = status_value a.status;
  current_stage = stage_value a.current_stage;
  depth = depth;
}

move_failed :
    (now : ℕ) (a : Assessment) (reason : Option Text)
    → ((move now a failed none reason).status ≡ failed)
      × ((move now a failed none reason).current_stage ≡ queued)
      × ((move now a failed none reason).progress_percent ≡ 0)
unfolding move is_terminal percent_for stage_for_status
move_failed now a reason = ground arith

inferred_failed :
    (skip : Bool) (index : ℕ) → is_settled (inferred (some failed) skip false index 0).0 ≡ true
unfolding inferred is_settled is_terminal
inferred_failed true index = refl
inferred_failed false index = ground arith

module _ (a : AssessmentLike) (status_failed : status_or_none a.status ≡ some failed)
    (stage_queued : stage_or_none a.current_stage ≡ some queued) where
  failed_rows :
      (index : ℕ) (stages : List AssessmentStage)
      → All (λ s. stage_eq.equals s queued ≡ false) stages
      → All IsSettled (rows_from a (λ _. none) index stages)
  unfolding rows_from row_for is_current reached_index
  failed_rows index [] h = tt
  failed_rows index (s ∷ stages) h = (
    rw (status_failed, stage_queued, h.0) (inferred_failed _ index),
    failed_rows (index + 1) stages h.1,
  )

  failed_checklist : checklist_percent (stage_checklist a []) ≡ 100
  unfolding stage_checklist index_steps
  failed_checklist = (checklist_percent_bounds _ _).1.1 (failed_rows 0 stage_order (ground arith))

-- A failure that is recorded without a stage, whatever stage the assessment had reached, leaves the
-- row at the stage `queued` and 0 percent. Where no step was recorded, the checklist of that row
-- has every stage settled, so the same row shows 100 percent there.
pub failure_forgets_stage :
    (now : ℕ) (a : Assessment) (reason : Option Text) (depth : String) {b : Assessment}
    → a.status ≢ failed
    → transition now a failed none reason ≡ ok b
    → (b.current_stage ≡ queued)
      × (b.progress_percent ≡ 0)
      × (checklist_percent (stage_checklist (tracked depth b) []) ≡ 100)
failure_forgets_stage now a reason depth {b} ne h =
    let (s, q, z) = moved in
    (
      q,
      z,
      failed_checklist (tracked depth b) (rw s ((stored_values queued failed).1))
          (rw q ((stored_values queued failed).0)),
    )
  where
    moved : (b.status ≡ failed) × (b.current_stage ≡ queued) × (b.progress_percent ≡ 0)
    moved = elim (transition_cases now a failed none reason) [
      | inl (same, e) ↦ absurd (ne same)
      | inr (inl (differ, listed, e)) ↦ ground (arith, move_failed now a reason)
      | inr (inr (differ, unlisted, e)) ↦ cc
    ]
