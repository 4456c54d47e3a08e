-- ===== src/Runner/Authority.antt =====
-- A run that would have to start over, under nobody's authority.
use cyber.Base.{ℕ, ◌≡◌, refl, ap, ◌∙◌, true, false, Option, none, some, ◌∷◌, Text}
use cyber.Identity.{Principal}
use cyber.Approval.Data.{Uuid}
use cyber.Assessment.Status.{is_terminal}
use cyber.Runner.Data.{
  failed, is_final, Raised, raised, returned, AgentRun, AssessmentRow, Tables, put_run,
  put_assessment, RunOutcome,
}
use cyber.Runner.Enter.{
  load_run, run_identity, load_assessment, inspect, resolve_settings, must_seed, enter,
  misconfigured,
}
use cyber.Runner.Settle.{
  Settled, error_event, notices, actor_or, recover_principal, error_category, failed_row,
  settle_failure,
}
use cyber.Runner.Advance.{World, conclude, begin, resume_run, advance}
use cyber.Runner.Failing.{failed_assessment_lem}

unseeded_refused :
    (u : Uuid) (now run_id : ℕ) (worker_id : Option ℕ) (run : AgentRun) (s : Tables)
    → must_seed run.status run.thread_id s ≡ true
    → enter u now worker_id run_id run.thread_id run.status none s ≡ raised misconfigured
unfolding enter
unseeded_refused u now run_id worker_id run s seeds = rw (seeds, enter) refl

-- What is written down of a failure.
abbrev failure :
    (u : Uuid) (now run_id : ℕ) (thread_id : Text) (e : Raised) (principal : Option Principal)
    (s : Tables)
    → (held : AgentRun) (ids : ℕ × ℕ) (a : AssessmentRow) → Settled
failure u now run_id thread_id e principal s held ids a = record {
  outcome = record {
    run_id = run_id;
    status = failed;
    report_id = none;
    findings_total = 0;
    failure_category = some (error_category e);
  };
  store = put_assessment ids.0 a (put_run run_id (failed_row now e held) s);
  outputs =
      error_event ids.1 (error_category e)
      ∷ notices (actor_or principal (recover_principal u (s.checkpoints thread_id))) ids.0 e;
}

-- Where the tables have the run and its assessment, a failure is written down, and in these two rows
-- only.
failure_written :
    (u : Uuid) (now run_id : ℕ) (thread_id : Text) (e : Raised) (principal : Option Principal)
    (s : Tables) (held : AgentRun) (ids : ℕ × ℕ) (a : AssessmentRow)
    → s.runs run_id ≡ some held
    → run_identity held ≡ returned ids
    → load_assessment held.organization_id ids.0 s ≡ returned a
    → (a' : AssessmentRow) × (r : Settled) × (settle_failure u now run_id thread_id e principal s
        ≡ returned r)
      × (r.outcome.status ≡ failed)
      × (r.store ≡ put_assessment ids.0 a' (put_run run_id (failed_row now e held) s))
      × (is_terminal a'.row.status ≡ true)
unfolding settle_failure load_run
failure_written u now run_id thread_id e principal s held ids a found identified loaded =
    let (a', failing, over, _) = failed_assessment_lem now e a in
    (
      a',
      failure u now run_id thread_id e principal s held ids a',
      rw (found, load_run, settle_failure) (rw (identified, loaded, failing) refl),
      refl,
      refl,
      over,
    )

-- A run that is not over when it is inspected, that has to be seeded, and whose message carries no principal,
-- never reaches the graph: whatever the graph would do, its row is marked failed, its assessment has ended, and
-- nothing else is written. This holds where the settings of the organization can be resolved, which they cannot
-- with the integration of the model off, and the rows of the run, with its identifiers, and of its assessment
-- load; and of the row that another worker has left meanwhile, settled or not.
pub advance_unseeded :
    (u : Uuid) (w : World) (now later : ℕ) (worker_id : Option ℕ) (run_id : ℕ) (s : Tables)
    (run held : AgentRun) (ids : ℕ × ℕ) (a : AssessmentRow)
    → inspect run_id s ≡ returned run
    → is_final run.status ≡ false
    → resolve_settings run.organization_id (w.meanwhile s) ≡ returned tt
    → must_seed run.status run.thread_id (w.meanwhile s) ≡ true
    → (w.meanwhile s).runs run_id ≡ some held
    → run_identity held ≡ returned ids
    → load_assessment held.organization_id ids.0 (w.meanwhile s) ≡ returned a
    → (o : RunOutcome) × (a' : AssessmentRow) × ((advance u w now later worker_id run_id none
          s).answer
        ≡ returned o)
      × (o.status ≡ failed)
      × ((advance u w now later worker_id run_id none s).store
          ≡ put_assessment ids.0 a'
              (put_run run_id (failed_row later misconfigured held) (w.meanwhile s)))
      × (is_terminal a'.row.status ≡ true)
unfolding advance resume_run begin conclude
advance_unseeded u w now later worker_id run_id s run held ids a seen live ready seeds found
      identified loaded =
    let t = w.meanwhile s in
    let (a', r, written, failing, left, over) =
      failure_written u later run_id run.thread_id misconfigured none t held ids a found identified
        loaded in
    let refused = unseeded_refused u now run_id worker_id run t seeds in
    let e : advance u w now later worker_id run_id none s ≡ conclude t (returned r) =
      rw (seen, live, advance) (rw (ready, resume_run) (rw (refused, begin) (rw written refl))) in
    (r.outcome, a', ap (λ x. x.answer) e, failing, ap (λ x. x.store) e ∙ left, over)
