-- ===== src/Runner/Outcomes.antt =====
-- What `advance` reports is what the run's row says.
use cyber.Base.{
  ℕ, ◌≡◌, refl, sym, ap, subst, ◌∙◌, true, false, Bool-cases, Option-cases, inl, inr, ◌⊎◌, arith,
  Option, some, List, [], ◌∷◌, Text,
}
use cyber.Identity.{Principal}
use cyber.Approval.Data.{Uuid}
use cyber.Agent.Graph.{Node}
use cyber.Runner.Data.{
  AgentRunStatus, interrupted, failed, is_final, Raised, Attempt, raised, returned, >>=-returned,
  Attempt-cases, returned_inj, runs-put_run, AgentRun, AssessmentRow, StateSnapshot, Tables,
  put_run, put_assessment, RunOutcome,
}
use cyber.Runner.Enter.{
  load_run, Seed, run_identity, load_assessment, inspect, resolve_settings, enter,
}
use cyber.Runner.Settle.{
  Settled, interrupted_row, completed_row, failed_row, failed_assessment, optional_state_uuid,
  settle_interrupt, settle_complete, settle_snapshot, settle, settle_failure,
}
use cyber.Runner.Advance.{
  World, Advanced, outcome_from, conclude, is_conflict, drive, begin, resume_run, advance,
}

-- The run's row has the status of the outcome, which is one in which a run rests, and a row that is
-- settled is that of an assessment's run.
pub record Records (run_id : ℕ) (o : RunOutcome) (s : Tables) : Type 0 where
  pub row : AgentRun
  pub found : s.runs run_id ≡ some row
  pub status : row.status ≡ o.status
  pub rests :
      ((is_final o.status ≡ true) × ((ids : ℕ × ℕ) × (run_identity row ≡ returned ids)))
      ⊎ (o.status ≡ interrupted)

pub load_run_found :
    (run_id : ℕ) (s : Tables) {run : AgentRun}
    → load_run run_id s ≡ returned run
    → s.runs run_id ≡ some run
unfolding load_run
load_run_found run_id s h = ground (arith, h)

module _ (u : Uuid) (now run_id : ℕ) where
  settle_interrupt-Records :
      (snapshot : StateSnapshot) (n : Node) (s : Tables) {r : Settled}
      → settle_interrupt u now run_id snapshot n s ≡ returned r
      → Records run_id r.outcome r.store
  unfolding settle_interrupt interrupted_row is_final
  settle_interrupt-Records snapshot n s h =
      let (approval_id, e1, h1) = >>=-returned (optional_state_uuid u snapshot.approval_id) _ h in
      let (run, e2, h2) = >>=-returned (load_run run_id s) _ h1 in
      subst (λ r. Records run_id r.outcome r.store) (returned_inj h2)
        (record {
          row = interrupted_row now approval_id n run;
          found = runs-put_run run_id (interrupted_row now approval_id n run) s;
          status = refl;
          rests = inr refl;
        })

  identified_completed : (run : AgentRun) → run_identity (completed_row now run) ≡ run_identity run
  unfolding run_identity completed_row
  identified_completed run = refl

  identified_failed :
      (e : Raised) (run : AgentRun) → run_identity (failed_row now e run) ≡ run_identity run
  unfolding run_identity failed_row
  identified_failed e run = refl

  settle_complete-Records :
      (snapshot : StateSnapshot) (s : Tables) {r : Settled}
      → settle_complete u now run_id snapshot s ≡ returned r
      → Records run_id r.outcome r.store
  unfolding settle_complete completed_row is_final
  settle_complete-Records snapshot s h =
      let (report_id, e1, h1) = >>=-returned (optional_state_uuid u snapshot.report_id) _ h in
      let (run, e2, h2) = >>=-returned (load_run run_id s) _ h1 in
      let (ids, e3, h3) = >>=-returned (run_identity run) _ h2 in
      let (a, e4, h4) = >>=-returned (load_assessment run.organization_id ids.0 s) _ h3 in
      subst (λ r. Records run_id r.outcome r.store) (returned_inj h4)
        (record {
          row = completed_row now run;
          found = runs-put_run run_id (completed_row now run) s;
          status = refl;
          rests = inl (refl, (ids, identified_completed run ∙ e3));
        })

  -- What a failure that was written down leaves.
  pub settle_failure_inv :
      (thread_id : Text) (e : Raised) (principal : Option Principal) (s : Tables) {r : Settled}
      → settle_failure u now run_id thread_id e principal s ≡ returned r
      → (run : AgentRun) × (ids : ℕ × ℕ) × (a : AssessmentRow) × (a' : AssessmentRow) × (s.runs
            run_id
          ≡ some run)
        × (run_identity run ≡ returned ids)
        × (load_assessment run.organization_id ids.0 s ≡ returned a)
        × (failed_assessment now e a ≡ returned a')
        × (r.outcome.status ≡ failed)
        × (r.store ≡ put_assessment ids.0 a' (put_run run_id (failed_row now e run) s))
  unfolding settle_failure
  settle_failure_inv thread_id e principal s h =
      let (run, e1, h1) = >>=-returned (load_run run_id s) _ h in
      let (ids, e2, h2) = >>=-returned (run_identity run) _ h1 in
      let (a, e3, h3) = >>=-returned (load_assessment run.organization_id ids.0 s) _ h2 in
      let (a', e4, h4) = >>=-returned (failed_assessment now e a) _ h3 in
      let same = returned_inj h4 in
      (
        run,
        ids,
        a,
        a',
        load_run_found run_id s e1,
        e2,
        e3,
        e4,
        ap (λ r. r.outcome.status) (sym same),
        ap (λ r. r.store) (sym same),
      )

  pub settle_failure-Records :
      (thread_id : Text) (e : Raised) (principal : Option Principal) (s : Tables) {r : Settled}
      → settle_failure u now run_id thread_id e principal s ≡ returned r
      → Records run_id r.outcome r.store
  unfolding failed_row is_final put_assessment
  settle_failure-Records thread_id e principal s {r} h =
      let (run, ids, a, a', e1, e2, e3, e4, failing, left) =
        settle_failure_inv thread_id e principal s h in
      record {
        row = failed_row now e run;
        found = ap (λ t. t.runs run_id) left ∙ runs-put_run run_id (failed_row now e run) s;
        status = sym failing;
        rests = inl (ap is_final failing, (ids, identified_failed e run ∙ e2));
      }

  settle_snapshot-Records :
      (snapshot : StateSnapshot) (next : List Node) (s : Tables) {r : Settled}
      → settle_snapshot u now run_id snapshot next s ≡ returned r
      → Records run_id r.outcome r.store
  unfolding settle_snapshot
  settle_snapshot-Records snapshot [] s h = settle_complete-Records snapshot s h
  settle_snapshot-Records snapshot (n ∷ next) s h = settle_interrupt-Records snapshot n s h

  pub settle-Records :
      (thread_id : Text) (s : Tables) {r : Settled}
      → settle u now run_id thread_id s ≡ returned r
      → Records run_id r.outcome r.store
  unfolding settle
  settle-Records thread_id s h = elim (Option-cases (s.checkpoints thread_id)) [
    | inl unread ↦ cc (unread, h)
    | inr (snapshot, read) ↦
        settle_snapshot-Records snapshot snapshot.next s (sym (rw (read, settle) refl) ∙ h)
  ]

-- What `advance` leaves after a settlement.
abbrev pub of_settled : Settled → Advanced
of_settled r = record { answer = returned r.outcome; store = r.store; outputs = r.outputs }

conclude_inv :
    (s : Tables) (m : Attempt Settled) {o : RunOutcome}
    → (conclude s m).answer ≡ returned o
    → (r : Settled) × (m ≡ returned r) × (conclude s m ≡ of_settled r)
unfolding conclude
conclude_inv s (raised e) h = cc
conclude_inv s (returned r) h = (r, refl, refl)

module _ (u : Uuid) (w : World) (now later : ℕ) (worker_id : Option ℕ) (run_id : ℕ)
    (principal : Option Principal) where
  -- A settlement, by either way, is what was left.
  pub record Settles (thread_id : Text) (left : Advanced) : Type 0 where
    pub settled : Settled
    pub same : left ≡ of_settled settled
    pub before : Tables
    pub way :
        (settle u later run_id thread_id before ≡ returned settled)
        ⊎ ((e : Raised) × (settle_failure u later run_id thread_id e principal before
              ≡ returned settled))

  by_settle :
      (thread_id : Text) (s : Tables) (left : Advanced) {o : RunOutcome}
      → left ≡ conclude s (settle u later run_id thread_id s)
      → left.answer ≡ returned o
      → Settles thread_id left
  by_settle thread_id s left e h =
      let (r, went, same) =
        conclude_inv s (settle u later run_id thread_id s) (ap (λ a. a.answer) (sym e) ∙ h) in
      record { settled = r; same = e ∙ same; before = s; way = inl went }

  by_failure :
      (thread_id : Text) (s : Tables) (f : Raised) (left : Advanced) {o : RunOutcome}
      → left ≡ conclude s (settle_failure u later run_id thread_id f principal s)
      → left.answer ≡ returned o
      → Settles thread_id left
  by_failure thread_id s f left e h =
      let (r, went, same) =
        conclude_inv s (settle_failure u later run_id thread_id f principal s)
          (ap (λ a. a.answer) (sym e) ∙ h) in
      record { settled = r; same = e ∙ same; before = s; way = inr (f, went) }

  drive_inv :
      (thread_id : Text) (seed : Option Seed) (s : Tables) {o : RunOutcome}
      → (drive u w now later worker_id run_id principal thread_id seed s).answer ≡ returned o
      → Settles thread_id (drive u w now later worker_id run_id principal thread_id seed s)
  unfolding drive
  drive_inv thread_id seed s h = elim (Option-cases (w.fails seed thread_id s)) [
    | inl went ↦ by_settle thread_id (w.ainvoke seed thread_id s) _ (rw (went, drive) refl) h
    | inr (e, failing) ↦
        by_failure thread_id (w.ainvoke seed thread_id s) e _ (rw (failing, drive) refl) h
  ]

  begin_inv :
      (thread_id : Text) (status : AgentRunStatus) (s : Tables) {o : RunOutcome}
      → (begin u w now later worker_id run_id principal thread_id status s).answer ≡ returned o
      → Settles thread_id (begin u w now later worker_id run_id principal thread_id status s)
  unfolding begin
  begin_inv thread_id status s h =
      elim (Attempt-cases (enter u now worker_id run_id thread_id status principal s)) [
        | inr ((seed, s'), entered) ↦
            let e : begin u w now later worker_id run_id principal thread_id status s
                ≡ drive u w now later worker_id run_id principal thread_id seed s' =
              rw (entered, begin) refl in
            subst (λ left. Settles thread_id left) (sym e)
              (drive_inv thread_id seed s' (ap (λ a. a.answer) (sym e) ∙ h))
        | inl (f, refused) ↦ elim (Bool-cases (is_conflict f)) [
          | inl benign ↦
              let e : (begin u w now later worker_id run_id principal thread_id status s).answer
                  ≡ raised f =
                rw (refused, benign, begin) refl in
              cc (sym e ∙ h)
          | inr fatal ↦ by_failure thread_id s f _ (rw (refused, fatal, begin) refl) h
        ]
      ]

  resume_run_inv :
      (run : AgentRun) (s : Tables) {o : RunOutcome}
      → (resume_run u w now later worker_id run_id principal run s).answer ≡ returned o
      → Settles run.thread_id (resume_run u w now later worker_id run_id principal run s)
  unfolding resume_run
  resume_run_inv run s h = elim (Attempt-cases (resolve_settings run.organization_id s)) [
    | inr (ready, e) ↦
        let begun : resume_run u w now later worker_id run_id principal run s
            ≡ begin u w now later worker_id run_id principal run.thread_id run.status s =
          rw (e, resume_run) refl in
        subst (λ left. Settles run.thread_id left) (sym begun)
          (begin_inv run.thread_id run.status s (ap (λ a. a.answer) (sym begun) ∙ h))
    | inl (f, e) ↦
        let stopped : (resume_run u w now later worker_id run_id principal run s).answer
            ≡ raised f =
          rw (e, resume_run) refl in
        cc (sym stopped ∙ h)
  ]

  -- The two ways in which `advance` returns: it found the run settled, or it settled it.
  pub advance_inv :
      (s : Tables) {o : RunOutcome}
      → (advance u w now later worker_id run_id principal s).answer ≡ returned o
      → ((run : AgentRun) × (inspect run_id s ≡ returned run)
          × (is_final run.status ≡ true)
          × (advance u w now later worker_id run_id principal s
              ≡ record { answer = returned (outcome_from run); store = s; outputs = [] }))
        ⊎ ((run : AgentRun) × (is_final run.status ≡ false)
            × Settles run.thread_id (advance u w now later worker_id run_id principal s))
  unfolding advance
  advance_inv s h = elim (Attempt-cases (inspect run_id s)) [
    | inl (f, e) ↦
        let stopped : (advance u w now later worker_id run_id principal s).answer ≡ raised f =
          rw (e, advance) refl in
        cc (sym stopped ∙ h)
    | inr (run, e) ↦ elim (Bool-cases (is_final run.status)) [
      | inl done ↦ inl (run, e, done, rw (e, done, advance) refl)
      | inr live ↦
          let on : advance u w now later worker_id run_id principal s
              ≡ resume_run u w now later worker_id run_id principal run (w.meanwhile s) =
            rw (e, live, advance) refl in
          inr (
            run,
            live,
            subst (λ left. Settles run.thread_id left) (sym on)
                (resume_run_inv run (w.meanwhile s) (ap (λ a. a.answer) (sym on) ∙ h)),
          )
    ]
  ]
