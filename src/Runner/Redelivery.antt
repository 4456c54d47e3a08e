-- ===== src/Runner/Redelivery.antt =====
-- A run may be handed to `advance` more than once: by a redelivery, or by the reclaim of a dead
-- worker's message.
use cyber.Base.{ℕ, ◌≡◌, refl, sym, ap, subst, ◌∙◌, true, inl, inr, Option, some, [], Text}
use cyber.Identity.{Principal}
use cyber.Approval.Data.{Uuid}
use cyber.Assessment.Status.{status_eq}
use cyber.Runner.Data.{is_final, returned, >>=-returned, returned_inj, AgentRun, Tables, RunOutcome}
use cyber.Runner.Enter.{load_run, run_identity, inspect}
use cyber.Runner.Advance.{World, Advanced, outcome_from, advance}
use cyber.Runner.Outcomes.{
  Records, Settles, load_run_found, settle-Records, settle_failure-Records, advance_inv,
}

inspect_inv :
    (run_id : ℕ) (s : Tables) {run : AgentRun}
    → inspect run_id s ≡ returned run
    → (s.runs run_id ≡ some run) × ((ids : ℕ × ℕ) × (run_identity run ≡ returned ids))
unfolding inspect
inspect_inv run_id s h =
    let (found, e1, h1) = >>=-returned (load_run run_id s) _ h in
    let (ids, e2, h2) = >>=-returned (run_identity found) _ h1 in
    let same = returned_inj h2 in
    subst (λ run. (s.runs run_id ≡ some run) × ((ids : ℕ × ℕ) × (run_identity run ≡ returned ids)))
      same (load_run_found run_id s e1, (ids, e2))

inspect_found :
    (run_id : ℕ) (s : Tables) (run : AgentRun) (ids : ℕ × ℕ)
    → s.runs run_id ≡ some run
    → run_identity run ≡ returned ids
    → inspect run_id s ≡ returned run
unfolding inspect load_run
inspect_found run_id s run ids found identified = rw (found, load_run, inspect) (rw identified refl)

module _ (run_id : ℕ) where
  -- A row that is settled, as its outcome reports it.
  kept_record :
      (s : Tables) (run : AgentRun)
      → s.runs run_id ≡ some run
      → is_final run.status ≡ true
      → ((ids : ℕ × ℕ) × (run_identity run ≡ returned ids))
      → Records run_id (outcome_from run) s
  unfolding outcome_from
  kept_record s run found done identified = record {
    row = run;
    found = found;
    status = refl;
    rests = inl (done, identified);
  }

settled_again :
    (u : Uuid) (run_id : ℕ) (w : World) (now later : ℕ) (worker_id : Option ℕ)
    (principal : Option Principal) (s : Tables) (run : AgentRun)
    → inspect run_id s ≡ returned run
    → is_final run.status ≡ true
    → advance u w now later worker_id run_id principal s
      ≡ record { answer = returned (outcome_from run); store = s; outputs = [] }
unfolding advance
settled_again u run_id w now later worker_id principal s run seen done =
    rw (seen, done, advance) refl

-- A row that is settled is that of an assessment's run.
final_ids :
    (run_id : ℕ) (s : Tables) {o : RunOutcome} (r : Records run_id o s)
    → is_final o.status ≡ true
    → (ids : ℕ × ℕ) × (run_identity r.row ≡ returned ids)
unfolding is_final
final_ids run_id s r done = elim r.rests [
  | inl (final, ids) ↦ ids
  | inr paused ↦ cc (ap is_final paused, done)
]

module _ (u : Uuid) (w : World) (now later : ℕ) (worker_id : Option ℕ) (run_id : ℕ)
    (principal : Option Principal) where
  Settles-Records :
      (thread_id : Text) (left : Advanced) {o : RunOutcome}
      → Settles u w now later worker_id run_id principal thread_id left
      → left.answer ≡ returned o
      → Records run_id o left.store
  Settles-Records thread_id left x h =
      let r = x.settled in
      let e = returned_inj (ap (λ a. a.answer) (sym x.same) ∙ h) in
      let records : Records run_id r.outcome r.store = elim x.way [
        | inl went ↦ settle-Records u later run_id thread_id x.before went
        | inr (f, went) ↦ settle_failure-Records u later run_id thread_id f principal x.before went
      ] in
      subst (λ t. Records run_id _ t) (ap (λ a. a.store) (sym x.same))
        (subst (λ o. Records run_id o r.store) e records)

  -- A call of `advance` that returns has left the run's row with the status that it reports, and this is
  -- the one of a run that has paused, or a terminal one.
  pub advance-Records :
      (s : Tables) {o : RunOutcome}
      → (advance u w now later worker_id run_id principal s).answer ≡ returned o
      → Records run_id o (advance u w now later worker_id run_id principal s).store
  advance-Records s {o} h = elim (advance_inv u w now later worker_id run_id principal s h) [
    | inr (run, live, x) ↦
        Settles-Records run.thread_id (advance u w now later worker_id run_id principal s) x h
    | inl (run, e, done, left) ↦
        let (found, identified) = inspect_inv run_id s e in
        let same : outcome_from run ≡ o = returned_inj (ap (λ a. a.answer) (sym left) ∙ h) in
        subst (λ t. Records run_id o t) (ap (λ a. a.store) (sym left))
          (subst (λ o. Records run_id o s) same (kept_record run_id s run found done identified))
  ]

  -- After a call that reported a terminal status, every later call for the run, of whatever
  -- worker, at whatever time and whatever its message carries, reports this status, writes nothing, and
  -- tells the outside nothing.
  pub advance-advance :
      (s : Tables) {o : RunOutcome}
      → (advance u w now later worker_id run_id principal s).answer ≡ returned o
      → is_final o.status ≡ true
      → (w' : World) (now' later' : ℕ) (worker' : Option ℕ) (principal' : Option Principal)
      → (o' : RunOutcome) × (o'.status ≡ o.status)
        × (let t = (advance u w now later worker_id run_id principal s).store in
            advance u w' now' later' worker' run_id principal' t
            ≡ record { answer = returned o'; store = t; outputs = [] })
  unfolding outcome_from
  advance-advance s {o} h done w' now' later' worker' principal' =
      let t = (advance u w now later worker_id run_id principal s).store in
      let r = advance-Records s h in
      let (ids, identified) = final_ids run_id t r done in
      let seen = inspect_found run_id t r.row ids r.found identified in
      let over : is_final r.row.status ≡ true = ap is_final r.status ∙ done in
      (
        outcome_from r.row,
        r.status,
        settled_again u run_id w' now' later' worker' principal' t r.row seen over,
      )
