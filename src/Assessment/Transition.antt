-- ===== src/Assessment/Transition.antt =====
-- `transition`, `record_degradation` and `cancel_assessment`: every branch, and the invariant of
-- an assessment's row.
use cyber.Base.{
  ℕ, ◌≤◌, ◌≡◌, ◌≢◌, ◌↔◌, ◌⊎◌, inl, inr, true, false, Option, arith, contains, length, is_some, Text,
  Bool-cases, subst,
}
use cyber.Base.Errors.{conflict, ok, err}
use cyber.Identity.{permission_eq}
use cyber.Assessment.Status.{
  AssessmentStatus, created, completed, status_eq, is_terminal, allowed_transitions,
}
use cyber.Assessment.Stage.{AssessmentStage}
use cyber.Progress.{percent_for}
use cyber.Assessment.Service.{
  Assessment, assessment_tenanted, set_stage, set_given_stage, move, transition,
}

allowed_of_terminal :
    (s to : AssessmentStatus) → is_terminal s ≡ true → contains to (allowed_transitions s) ≡ false
unfolding is_terminal allowed_transitions
allowed_of_terminal created to h = cc
allowed_of_terminal _ to h = ground arith

-- The row's percentage is that of its stage, but that a completed assessment may show 100; it has
-- an end time exactly when its status is terminal; it keeps at most 200 degradations.
pub record IsConsistent (a : Assessment) : Type 0 where
  pub percentage :
      (a.progress_percent ≡ percent_for a.current_stage)
      ⊎ ((a.status ≡ completed) × (a.progress_percent ≡ 100))
  pub ended : is_some a.completed_at ≡ is_terminal a.status
  pub noted : length a.degradations ≤ 200

module _ (now : ℕ) (a : Assessment) (to : AssessmentStatus) (stage : Option AssessmentStage)
    (reason : Option Text) where
  status-move : (move now a to stage reason).status ≡ to
  unfolding move
  status-move = ground arith

  status-set_given_stage : (set_given_stage a stage).status ≡ a.status
  unfolding set_given_stage
  status-set_given_stage = ground arith

  -- The three ways in which a call of `transition` ends.
  pub transition_cases :
      ((a.status ≡ to) × (transition now a to stage reason ≡ ok (set_given_stage a stage)))
      ⊎ ((a.status ≢ to)
          × (contains to (allowed_transitions a.status) ≡ true)
          × (transition now a to stage reason ≡ ok (move now a to stage reason)))
      ⊎ ((a.status ≢ to)
          × (contains to (allowed_transitions a.status) ≡ false)
          × (transition now a to stage reason ≡ err conflict))
  unfolding transition
  transition_cases = elim (Bool-cases (status_eq.equals a.status to)) [
    | inl same ↦ inl ((status_eq.equals_iff a.status to).0 same, rw same)
    | inr differs ↦
        let differ : a.status ≢ to = λ e. cc (differs, (status_eq.equals_iff a.status to).1 e) in
        elim (Bool-cases (contains to (allowed_transitions a.status))) [
          | inl listed ↦ inr (inl (differ, listed, rw (differs, listed)))
          | inr unlisted ↦ inr (inr (differ, unlisted, rw (differs, unlisted)))
        ]
  ]

  -- A move is refused, as a conflict, exactly when it goes somewhere that the state machine does
  -- not list; where it succeeds, the status is the one asked for.
  pub transition_iff :
      ((transition now a to stage reason ≡ err conflict)
        ↔ ((a.status ≢ to) × (contains to (allowed_transitions a.status) ≡ false)))
      × ((b : Assessment) → transition now a to stage reason ≡ ok b → b.status ≡ to)
  transition_iff = elim transition_cases [
    | inl (same, e) ↦ (ground arith, λ b h. cc (status-set_given_stage))
    | inr (inl (differ, listed, e)) ↦ (ground arith, λ b h. cc (status-move))
    | inr (inr (differ, unlisted, e)) ↦ (ground arith, λ b h. cc)
  ]

  -- No move leaves a terminal status, or changes the end time or the reason of the failure.
  pub terminal_stays :
      {b : Assessment}
      → is_terminal a.status ≡ true
      → transition now a to stage reason ≡ ok b
      → (b.status ≡ a.status)
        × (b.completed_at ≡ a.completed_at)
        × (b.failure_reason ≡ a.failure_reason)
  unfolding set_given_stage set_stage
  terminal_stays done h = elim transition_cases [
    | inl (same, e) ↦ ground arith
    | inr (inl (differ, listed, e)) ↦ cc (allowed_of_terminal a.status to done)
    | inr (inr (differ, unlisted, e)) ↦ cc
  ]

  move-IsConsistent :
      is_terminal a.status ≡ false → IsConsistent a → IsConsistent (move now a to stage reason)
  unfolding move
  move-IsConsistent live v = record {
    percentage = ground (arith, status_eq.equals_iff to completed);
    ended = ground (arith, v.ended, live);
    noted = ground (arith, v.noted);
  }

  set_given_stage-IsConsistent : IsConsistent a → IsConsistent (set_given_stage a stage)
  unfolding set_given_stage set_stage
  set_given_stage-IsConsistent v = ground arith

  -- `transition` keeps the invariant.
  pub transition-IsConsistent :
      {b : Assessment} → IsConsistent a → transition now a to stage reason ≡ ok b → IsConsistent b
  transition-IsConsistent v h = elim transition_cases [
    | inl (same, e) ↦ subst IsConsistent (cc) (set_given_stage-IsConsistent v)
    | inr (inl (differ, listed, e)) ↦ elim (Bool-cases (is_terminal a.status)) [
      | inl done ↦ cc (allowed_of_terminal a.status to done)
      | inr live ↦ subst IsConsistent (cc) (move-IsConsistent live v)
    ]
    | inr (inr (differ, unlisted, e)) ↦ cc
  ]
