-- ===== src/Worker/Cancelling.antt =====
-- What a teardown leaves of an assessment that the operator cancelled.
use cyber.Base.{
  ℕ, ◌≡◌, ◌≢◌, refl, sym, ap, subst, ◌∙◌, true, false, not, ◌||◌, Bool-cases, inl, inr, ◌⊎◌, arith,
  Option, none, some, List, map, Text, codes, ◌==◌, All,
}
use cyber.Base.Errors.{ok}
use cyber.Identity.{Principal}
use cyber.Repository.{select}
use cyber.Repository.Update.{All-update_rows, map-update_rows, keep-update_rows}
use cyber.Assessment.Status.{AssessmentStatus, status_eq, is_terminal, allowed_transitions}
use cyber.Assessment.Service.{Assessment, move, transition}
use cyber.Job.Data.{ScannerJob, job_tenanted}
use cyber.Job.Life.{cancels_for, cancel_row, cancel_jobs_for_assessment}
use cyber.Runner.Data.{
  is_final, returned, runs-put_run, assessments-put_assessment, AgentRun, AssessmentRow, Tables,
  put_run, put_assessment,
}
use cyber.Runner.Enter.{owned}
use cyber.Worker.Teardown.{
  RunContext, assessment_of, flag_jobs, user_or_none, cancelled_row, cancel_run, cancel_scans,
  cancel_teardown,
}

-- An active job of the assessment has the flag that its executor looks for.
abbrev pub Flagged : (org assessment_id : ℕ) → ScannerJob → Type 0
Flagged org assessment_id j = (not (cancels_for org assessment_id j) || j.cancel_requested) ≡ true

flagged_row :
    (now org assessment_id : ℕ) (by : Option ℕ) (j : ScannerJob)
    → Flagged org assessment_id (cancel_row now by j)
unfolding cancel_row
flagged_row now org assessment_id by j = ground arith

cancel_jobs-Flagged :
    (now org assessment_id : ℕ) (by : Option ℕ) (jobs : List ScannerJob)
    → All (Flagged org assessment_id) (cancel_jobs_for_assessment now org assessment_id by jobs).0
unfolding cancel_jobs_for_assessment
cancel_jobs-Flagged now org assessment_id by jobs =
    All-update_rows (Flagged org assessment_id) (cancels_for org assessment_id) (cancel_row now by)
      (λ j meets. flagged_row now org assessment_id by j) (λ j fails. ground (arith, fails)) jobs

owned_same :
    (org : ℕ) (a : AssessmentRow) → a.row.organization_id ≡ org → owned org (some a) ≡ some a
unfolding owned
owned_same org a e = ground (arith, e)

abbrev reason : Option Text
reason = some (codes "Cancelled by operator.")

may_cancel :
    (now : ℕ) (a : Assessment)
    → a.status ≡ AssessmentStatus.cancelling
    → transition now a AssessmentStatus.cancelled none reason
      ≡ ok (move now a AssessmentStatus.cancelled none reason)
unfolding transition allowed_transitions
may_cancel now a e = rw (e, transition) refl

columns-move :
    (now : ℕ) (a : Assessment)
    → ((move now a AssessmentStatus.cancelled none reason).status ≡ AssessmentStatus.cancelled)
      × ((move now a AssessmentStatus.cancelled none reason).organization_id ≡ a.organization_id)
unfolding move
columns-move now a = ground arith

-- The assessment that a teardown leaves.
abbrev cancelled_assessment : ℕ → AssessmentRow → AssessmentRow
cancelled_assessment now a = record a {
  row = move now a.row AssessmentStatus.cancelled none reason;
}

owned_inv :
    (org : ℕ) (o : Option AssessmentRow) (a : AssessmentRow)
    → owned org o ≡ some a
    → a.row.organization_id ≡ org
unfolding owned
owned_inv org none a h = cc
owned_inv org (some b) a h = ground (arith, h)

ended : is_terminal AssessmentStatus.cancelled ≡ true
unfolding is_terminal
ended = refl

still_live : is_terminal AssessmentStatus.cancelling ≡ false
unfolding is_terminal
still_live = refl

scans_cancelled :
    (now : ℕ) (principal : Option Principal) (a : AssessmentRow) (s : Tables)
    → a.row.status ≡ AssessmentStatus.cancelling
    → cancel_scans now principal (some a) s
      ≡ returned
          (put_assessment a.row.id (cancelled_assessment now a) (flag_jobs now principal a s))
unfolding cancel_scans
scans_cancelled now principal a s e =
    let live : is_terminal a.row.status ≡ false = ap is_terminal e ∙ still_live in
    let cancels : status_eq.equals a.row.status AssessmentStatus.cancelling ≡ true =
      (status_eq.equals_iff _ _).1 e in
    rw (live, cancels, may_cancel now a.row e, cancel_scans) refl

-- What a teardown leaves, where the assessment was being cancelled.
abbrev after_teardown : (now run_id : ℕ) → Option Principal → AssessmentRow → Tables → Tables
after_teardown now run_id principal a s =
    cancel_run now run_id (s.runs run_id)
      (put_assessment a.row.id (cancelled_assessment now a) (flag_jobs now principal a s))

columns-cancel_run :
    (now run_id : ℕ) (o : Option AgentRun) (s : Tables)
    → ((cancel_run now run_id o s).assessments ≡ s.assessments)
      × ((cancel_run now run_id o s).jobs ≡ s.jobs)
unfolding cancel_run put_run
columns-cancel_run now run_id none s = (refl, refl)
columns-cancel_run now run_id (some run) s = elim (Bool-cases (is_final run.status)) [
  | inl done ↦ rw (done, cancel_run) (refl, refl)
  | inr live ↦ rw (live, cancel_run) (refl, refl)
]

-- The run is gone, or its row is terminal.
abbrev pub Over : (run_id : ℕ) → Tables → Type 0
Over run_id s =
    (s.runs run_id ≡ none)
    ⊎ ((row : AgentRun) × (s.runs run_id ≡ some row) × (is_final row.status ≡ true))

cancel_run-Over :
    (now run_id : ℕ) (o : Option AgentRun) (s : Tables)
    → s.runs run_id ≡ o
    → Over run_id (cancel_run now run_id o s)
unfolding cancel_run cancelled_row is_final
cancel_run-Over now run_id none s found = inl found
cancel_run-Over now run_id (some run) s found = elim (Bool-cases (is_final run.status)) [
  | inl done ↦ rw (done, cancel_run) (inr (run, found, done))
  | inr live ↦
      rw (live, cancel_run)
        (inr (cancelled_row now run, runs-put_run run_id (cancelled_row now run) s, refl))
]

-- A run that is over is left alone.
cancel-Over :
    (now run_id : ℕ) (s : Tables) → Over run_id s → cancel_run now run_id (s.runs run_id) s ≡ s
unfolding cancel_run
cancel-Over now run_id s (inl gone) = rw (gone, cancel_run) refl
cancel-Over now run_id s (inr (row, found, done)) = rw (found, cancel_run) (rw done refl)

module _ (now run_id : ℕ) (ctx : RunContext) (principal : Option Principal) (a : AssessmentRow)
    (s : Tables) where
  abbrev left : Tables
  left = after_teardown now run_id principal a s

  teardown_inv :
      assessment_of ctx.organization_id ctx.assessment_id s ≡ some a
      → a.row.status ≡ AssessmentStatus.cancelling
      → cancel_teardown now run_id ctx principal s ≡ returned left
  unfolding cancel_teardown
  teardown_inv found cancels =
      rw (found, scans_cancelled now principal a s cancels, cancel_teardown) refl

  stored : left.assessments a.row.id ≡ some (cancelled_assessment now a)
  stored =
      ap (λ f. f a.row.id) (columns-cancel_run now run_id (s.runs run_id) _).0
      ∙ assessments-put_assessment a.row.id (cancelled_assessment now a)
          (flag_jobs now principal a s)

  jobs-left :
      left.jobs
      ≡ (cancel_jobs_for_assessment now a.row.organization_id a.row.id
          (user_or_none principal)
          s.jobs).0
  unfolding put_assessment flag_jobs
  jobs-left = (columns-cancel_run now run_id (s.runs run_id) _).1

  left-Over : Over run_id left
  unfolding put_assessment flag_jobs
  left-Over = cancel_run-Over now run_id (s.runs run_id) _ refl

  -- What a teardown promises of the tables: the assessment is cancelled and the run is over; every job
  -- of the assessment that is active has the flag that stops it, no job's status is written, and
  -- the jobs of another organization are as they were.
  pub record TornDown (other : ℕ) (s' : Tables) : Type 0 where
    pub assessment : AssessmentRow
    pub found : s'.assessments a.row.id ≡ some assessment
    pub cancelled : assessment.row.status ≡ AssessmentStatus.cancelled
    pub over : Over run_id s'
    pub flagged : All (Flagged a.row.organization_id a.row.id) s'.jobs
    pub statuses : map (λ j. j.status) s'.jobs ≡ map (λ j. j.status) s.jobs
    pub foreign : select other s'.jobs ≡ select other s.jobs

  left-TornDown : (other : ℕ) → other ≢ a.row.organization_id → TornDown other left
  unfolding cancel_jobs_for_assessment cancel_row cancels_for select
  left-TornDown other foreign = record {
    assessment = cancelled_assessment now a;
    found = stored;
    cancelled = (columns-move now a.row).0;
    over = left-Over;
    flagged =
        subst (All (Flagged a.row.organization_id a.row.id)) (sym jobs-left)
          (cancel_jobs-Flagged now a.row.organization_id a.row.id (user_or_none principal) s.jobs);
    statuses =
        ap (map (λ j. j.status)) jobs-left
        ∙ map-update_rows (λ j. j.status) (cancels_for a.row.organization_id a.row.id)
            (cancel_row now (user_or_none principal)) (λ j. refl) s.jobs;
    foreign =
        ap (select other) jobs-left
        ∙ keep-update_rows (λ j. j.organization_id == other)
            (cancels_for a.row.organization_id a.row.id) (cancel_row now (user_or_none principal))
            (λ j h. ground (arith, foreign, h)) s.jobs;
  }

  same_context :
      assessment_of ctx.organization_id ctx.assessment_id s ≡ some a
      → ctx.assessment_id ≡ some a.row.id
      → assessment_of ctx.organization_id ctx.assessment_id left ≡ some (cancelled_assessment now a)
  unfolding assessment_of
  same_context found key =
      let read : owned ctx.organization_id (s.assessments a.row.id) ≡ some a =
        sym (ap (λ o. assessment_of ctx.organization_id o s) key) ∙ found in
      let org = owned_inv ctx.organization_id (s.assessments a.row.id) a read in
      ap (λ o. assessment_of ctx.organization_id o left) key
      ∙ ap (owned ctx.organization_id) stored
      ∙ owned_same ctx.organization_id (cancelled_assessment now a)
          ((columns-move now a.row).1 ∙ org)

  -- A teardown of an assessment that is being cancelled goes through and leaves what it promises, and a
  -- second one, of whatever worker, later and in whoever's name, leaves the tables as they are.
  pub cancel_teardown-TornDown :
      assessment_of ctx.organization_id ctx.assessment_id s ≡ some a
      → ctx.assessment_id ≡ some a.row.id
      → a.row.status ≡ AssessmentStatus.cancelling
      → (other : ℕ) → other ≢ a.row.organization_id
      → (later : ℕ) (again : Option Principal)
      → (s' : Tables) × (cancel_teardown now run_id ctx principal s ≡ returned s')
        × TornDown other s'
        × (cancel_teardown later run_id ctx again s' ≡ returned s')
  unfolding cancel_teardown cancel_scans
  cancel_teardown-TornDown found key cancels other foreign later again = (
    left,
    teardown_inv found cancels,
    left-TornDown other foreign,
    let over : is_terminal (cancelled_assessment now a).row.status ≡ true =
          ap is_terminal (columns-move now a.row).0 ∙ ended in
        rw (same_context found key, cancel_teardown)
          (rw (over, cancel_scans) (ap returned (cancel-Over later run_id left left-Over))),
  )
