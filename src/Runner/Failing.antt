-- ===== src/Runner/Failing.antt =====
-- A run that fails takes its assessment along.
use cyber.Base.{
  ℕ, ◌≡◌, ◌≢◌, refl, sym, ap, subst, ◌∙◌, true, false, Bool-cases, inl, inr, arith, Option, none,
  some, List, [], ◌∷◌, Text, contains, Option-cases,
}
use cyber.Base.Errors.{Error, err, Result-cases}
use cyber.Identity.{Principal}
use cyber.Approval.Data.{Uuid}
use cyber.Agent.Graph.{Node}
use cyber.Assessment.Status.{AssessmentStatus, is_terminal, allowed_transitions, status_eq}
use cyber.Assessment.Service.{Assessment, transition}
use cyber.Assessment.Transition.{transition_iff}
use cyber.Runner.Data.{
  failed, completed, interrupted, is_final, Raised, returned, >>=-returned, returned_inj, AgentRun,
  AssessmentRow, StateSnapshot, Tables, put_run, put_assessment, RunOutcome,
}
use cyber.Runner.Enter.{load_run, run_identity, load_assessment, inspect}
use cyber.Runner.Settle.{
  Settled, user_message, error_category, failed_row, failed_assessment, optional_state_uuid,
  settle_interrupt, settle_complete, settle_snapshot, settle, settle_failure,
}
use cyber.Runner.Advance.{World, advance}
use cyber.Runner.Outcomes.{settle_failure_inv, advance_inv}

-- Every status that is not terminal may become FAILED.
failed_listed :
    (s : AssessmentStatus)
    → is_terminal s ≡ false
    → contains AssessmentStatus.failed (allowed_transitions s) ≡ true
unfolding is_terminal allowed_transitions
failed_listed AssessmentStatus.created h = refl
failed_listed _ h = ground (arith, h)

never_refused :
    (now : ℕ) (a : Assessment) (reason : Option Text)
    → is_terminal a.status ≡ false
    → (e : Error) → transition now a AssessmentStatus.failed none reason ≢ err e
unfolding transition
never_refused now a reason live e h = ground (arith, failed_listed a.status live, h)

-- A failure ends the assessment that it finds, unless it has ended; it is never refused.
pub failed_assessment_lem :
    (now : ℕ) (e : Raised) (a : AssessmentRow)
    → (a' : AssessmentRow) × (failed_assessment now e a ≡ returned a')
      × (is_terminal a'.row.status ≡ true)
      × ((is_terminal a.row.status ≡ true) → a' ≡ a)
unfolding failed_assessment is_terminal
failed_assessment_lem now e a = elim (Bool-cases (is_terminal a.row.status)) [
  | inl done ↦ (a, rw done refl, done, λ _. refl)
  | inr live ↦
      elim (Result-cases
        (transition now a.row AssessmentStatus.failed none (some (user_message e)))) [
          | inl (f, refused) ↦
              absurd (never_refused now a.row (some (user_message e)) live f refused)
          | inr (moved, e2) ↦
              let ends =
                (transition_iff now a.row AssessmentStatus.failed none (some (user_message e))).1
                  moved e2 in
              (
                record a { row = moved; failure_category = some (error_category e) },
                rw (live, e2, failed_assessment) refl,
                ap is_terminal ends,
                λ done. cc,
              )
        ]
]

module _ (u : Uuid) (now run_id : ℕ) where
  completed_status :
      (snapshot : StateSnapshot) (s : Tables) {r : Settled}
      → settle_complete u now run_id snapshot s ≡ returned r
      → r.outcome.status ≡ completed
  unfolding settle_complete
  completed_status snapshot s h =
      let (report_id, e1, h1) = >>=-returned (optional_state_uuid u snapshot.report_id) _ h in
      let (run, e2, h2) = >>=-returned (load_run run_id s) _ h1 in
      let (ids, e3, h3) = >>=-returned (run_identity run) _ h2 in
      let (a, e4, h4) = >>=-returned (load_assessment run.organization_id ids.0 s) _ h3 in
      ap (λ r. r.outcome.status) (sym (returned_inj h4))

  interrupted_status :
      (snapshot : StateSnapshot) (n : Node) (s : Tables) {r : Settled}
      → settle_interrupt u now run_id snapshot n s ≡ returned r
      → r.outcome.status ≡ interrupted
  unfolding settle_interrupt
  interrupted_status snapshot n s h =
      let (approval_id, e1, h1) = >>=-returned (optional_state_uuid u snapshot.approval_id) _ h in
      let (run, e2, h2) = >>=-returned (load_run run_id s) _ h1 in
      ap (λ r. r.outcome.status) (sym (returned_inj h2))

  snapshot_status :
      (snapshot : StateSnapshot) (next : List Node) (s : Tables) {r : Settled}
      → settle_snapshot u now run_id snapshot next s ≡ returned r
      → r.outcome.status ≢ failed
  unfolding settle_snapshot
  snapshot_status snapshot [] s h e = cc (completed_status snapshot s h, e)
  snapshot_status snapshot (n ∷ next) s h e = cc (interrupted_status snapshot n s h, e)

  settle_status :
      (thread_id : Text) (s : Tables) {r : Settled}
      → settle u now run_id thread_id s ≡ returned r
      → r.outcome.status ≢ failed
  unfolding settle
  settle_status thread_id s h = elim (Option-cases (s.checkpoints thread_id)) [
    | inl unread ↦ cc (unread, h)
    | inr (snapshot, read) ↦
        snapshot_status snapshot snapshot.next s (sym (rw (read, settle) refl) ∙ h)
  ]

-- The run's row and the row of its assessment, which has ended.
pub record Ended (run_id : ℕ) (s : Tables) : Type 0 where
  pub run : AgentRun
  pub ids : ℕ × ℕ
  pub assessment : AssessmentRow
  pub found : s.runs run_id ≡ some run
  pub identified : run_identity run ≡ returned ids
  pub stored : s.assessments ids.0 ≡ some assessment
  pub terminal : is_terminal assessment.row.status ≡ true

after_failure :
    (run_id now : ℕ) (e : Raised) (s : Tables) (run : AgentRun) (ids : ℕ × ℕ) (a : AssessmentRow)
    → run_identity run ≡ returned ids
    → is_terminal a.row.status ≡ true
    → Ended run_id (put_assessment ids.0 a (put_run run_id (failed_row now e run) s))
unfolding put_assessment put_run failed_row run_identity
after_failure run_id now e s run ids a identified over = record {
  run = failed_row now e run;
  ids = ids;
  assessment = a;
  found = ground arith;
  identified = identified;
  stored = ground arith;
  terminal = over;
}

settle_failure-Ended :
    (u : Uuid) (now run_id : ℕ) (thread_id : Text) (e : Raised) (principal : Option Principal)
    (s : Tables) {r : Settled}
    → settle_failure u now run_id thread_id e principal s ≡ returned r
    → Ended run_id r.store
settle_failure-Ended u now run_id thread_id e principal s h =
    let (run, ids, a, a', _, identified, _, failing, _, left) =
      settle_failure_inv u now run_id thread_id e principal s h in
    let (b, failed_to, over, _) = failed_assessment_lem now e a in
    let same : b ≡ a' = returned_inj (sym failed_to ∙ failing) in
    subst (λ t. Ended run_id t) (sym left)
      (after_failure run_id now e s run ids a' identified
        (ap (λ x. is_terminal x.row.status) (sym same) ∙ over))

-- When a call for a run that was not settled reports a failure, the run's assessment has ended as well.
pub advance-Ended :
    (u : Uuid) (w : World) (now later : ℕ) (worker_id : Option ℕ) (run_id : ℕ)
    (principal : Option Principal) (s : Tables) (run : AgentRun) {o : RunOutcome}
    → inspect run_id s ≡ returned run
    → is_final run.status ≡ false
    → (advance u w now later worker_id run_id principal s).answer ≡ returned o
    → o.status ≡ failed
    → Ended run_id (advance u w now later worker_id run_id principal s).store
advance-Ended u w now later worker_id run_id principal s run seen live h failing =
    elim (advance_inv u w now later worker_id run_id principal s h) [
      | inl (other, seen', done, _) ↦
          let same : run ≡ other = returned_inj (sym seen ∙ seen') in
          cc (ap (λ r. is_final r.status) same, live, done)
      | inr (_, _, x) ↦
          let status : x.settled.outcome.status ≡ failed =
            ap (λ o. o.status) (returned_inj (ap (λ a. a.answer) (sym x.same) ∙ h)) ∙ failing in
          elim x.way [
            | inl went ↦ absurd (settle_status u later run_id _ x.before went status)
            | inr (f, went) ↦
                subst (λ t. Ended run_id t) (ap (λ a. a.store) (sym x.same))
                  (settle_failure-Ended u later run_id _ f principal x.before went)
          ]
    ]
