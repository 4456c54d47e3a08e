-- ===== src/Worker/Acks.antt =====
-- When a message is acknowledged, and when it is left to be delivered again.
use cyber.Base.{
  ℕ, ◌≡◌, ◌≢◌, refl, sym, ap, subst, ◌∙◌, Bool, true, false, ◌&&◌, Bool-cases, Option-cases, inl,
  inr, ◌⊎◌, arith, Option, none, some, [], Text, codes,
}
use cyber.Base.Errors.{Error, ok, err, Result-cases}
use cyber.Identity.{Principal}
use cyber.Assessment.Status.{AssessmentStatus, status_eq, is_terminal, allowed_transitions}
use cyber.Assessment.Service.{Assessment, transition}
use cyber.Approval.Data.{Uuid}
use cyber.Queue.Protocol.{RunRequest, Json, Fields, from_fields}
use cyber.Runner.Data.{
  interrupted, is_final, Raised, cynux, unexpected, Attempt, raised, returned, Attempt-cases,
  runs-put_run, AgentRun, AssessmentRow, Tables, put_assessment, RunOutcome,
}
use cyber.Runner.Advance.{advance}
use cyber.Runner.Outcomes.{Records}
use cyber.Runner.Redelivery.{advance-Records}
use cyber.Worker.Teardown.{
  RunContext, assessment_of, load_context, cancelled_row, flag_jobs, cancel_run, cancel_scans,
  cancel_teardown, settle_orphaned_run, heartbeat_fresh,
}
use cyber.Worker.Dispatch.{
  Fate, finishes, operator_cancels, shuts_down, Dispatched, is_cynux, finished_run, torn_down,
  Moment, principal_of, run_message, route, handle, dispatch,
}

-- The run is gone, or it has paused or ended.
abbrev pub Rests : (run_id : ℕ) → Tables → Type 0
Rests run_id s =
    (s.runs run_id ≡ none)
    ⊎ ((row : AgentRun) × (s.runs run_id ≡ some row)
        × (is_final row.status ≡ true ⊎ row.status ≡ interrupted))

cancelled_listed :
    (now : ℕ) (a : Assessment) (reason : Option Text)
    → a.status ≡ AssessmentStatus.cancelling
    → (e : Error) → transition now a AssessmentStatus.cancelled none reason ≢ err e
unfolding transition allowed_transitions
cancelled_listed now a reason h e refused = ground (arith, h, refused)

-- A teardown's scans are cancelled without a refusal, and no run's row is touched.
cancel_scans_lem :
    (now : ℕ) (principal : Option Principal) (o : Option AssessmentRow) (s : Tables)
    → (s' : Tables) × (cancel_scans now principal o s ≡ returned s') × (s'.runs ≡ s.runs)
unfolding cancel_scans put_assessment flag_jobs
cancel_scans_lem now principal none s = (s, refl, refl)
cancel_scans_lem now principal (some a) s = elim (Bool-cases (is_terminal a.row.status)) [
  | inl done ↦ (s, rw (done, cancel_scans) refl, refl)
  | inr live ↦ elim (Bool-cases (status_eq.equals a.row.status AssessmentStatus.cancelling)) [
    | inr other ↦ (flag_jobs now principal a s, rw (live, other, cancel_scans) refl, refl)
    | inl cancels ↦
        elim (Result-cases (
          transition now a.row AssessmentStatus.cancelled none
            (some (codes "Cancelled by operator.")))) [
              | inl (e, refused) ↦ absurd (
                  cancelled_listed now a.row (some (codes "Cancelled by operator."))
                    ((status_eq.equals_iff _ _).0 cancels) e refused)
              | inr (moved, went) ↦ (
                put_assessment a.row.id (record a { row = moved }) (flag_jobs now principal a s),
                rw (live, cancels, went, cancel_scans) refl,
                refl,
              )
            ]
  ]
]

cancel_run-Rests :
    (now run_id : ℕ) (o : Option AgentRun) (s : Tables)
    → s.runs run_id ≡ o
    → Rests run_id (cancel_run now run_id o s)
unfolding cancel_run cancelled_row is_final
cancel_run-Rests now run_id none s found = inl found
cancel_run-Rests now run_id (some run) s found = elim (Bool-cases (is_final run.status)) [
  | inl done ↦ rw (done, cancel_run) (inr (run, found, inl done))
  | inr live ↦
      rw (live, cancel_run)
        (inr (cancelled_row now run, runs-put_run run_id (cancelled_row now run) s, inl refl))
]

cancel_teardown_lem :
    (now run_id : ℕ) (ctx : RunContext) (principal : Option Principal) (s : Tables)
    → (s' : Tables) × (cancel_teardown now run_id ctx principal s ≡ returned s') × Rests run_id s'
unfolding cancel_teardown
cancel_teardown_lem now run_id ctx principal s =
    let (flagged, e, kept) =
      cancel_scans_lem now principal (assessment_of ctx.organization_id ctx.assessment_id s) s in
    (
      cancel_run now run_id (s.runs run_id) flagged,
      rw (e, cancel_teardown) refl,
      cancel_run-Rests now run_id (s.runs run_id) flagged (ap (λ f. f run_id) kept),
    )

settle_orphaned_run-Rests :
    (now run_id : ℕ) (o : Option AgentRun) (s : Tables)
    → s.runs run_id ≡ o
    → Rests run_id (settle_orphaned_run now run_id o s)
unfolding settle_orphaned_run cancelled_row is_final
settle_orphaned_run-Rests now run_id none s found = inl found
settle_orphaned_run-Rests now run_id (some run) s found = elim (Bool-cases (is_final run.status)) [
  | inl done ↦ rw (done, settle_orphaned_run) (inr (run, found, inl done))
  | inr live ↦ rw (live, settle_orphaned_run) (inr (_, runs-put_run run_id _ s, inl refl))
]

Records-Rests : (run_id : ℕ) (o : RunOutcome) (s : Tables) → Records run_id o s → Rests run_id s
Records-Rests run_id o s r = inr (
  r.row,
  r.found,
  elim r.rests [
    | inl (done, ids) ↦ inl (ap is_final r.status ∙ done)
    | inr paused ↦ inr (r.status ∙ paused)
  ],
)

Raised-cases :
    (f : Raised) → (f ≡ unexpected) ⊎ ((e : Error) × (message : Text) × (f ≡ cynux e message))
Raised-cases unexpected = inl refl
Raised-cases (cynux e message) = inr (e, message, refl)

Fate-cases :
    (f : Fate)
    → (f ≡ finishes)
      ⊎ ((partly : Tables → Tables) × (f ≡ operator_cancels partly))
      ⊎ ((partly : Tables → Tables) × (f ≡ shuts_down partly))
Fate-cases finishes = inl refl
Fate-cases (operator_cancels partly) = inr (inl (partly, refl))
Fate-cases (shuts_down partly) = inr (inr (partly, refl))

module _ (u : Uuid) (j : Json) (worker_id : Option ℕ) (claim_idle_ms : ℕ) (m : Moment) where
  -- What a call of `advance` for the run answers.
  abbrev pub Answers : (run_id : ℕ) → Option Principal → Tables → Attempt RunOutcome → Type 0
  Answers run_id principal s answer =
      (m.fate ≡ finishes)
      × ((advance u m.world m.now m.later worker_id run_id principal s).answer ≡ answer)

  -- How a message ends: acknowledged, with the run at rest, or after an error of the taxonomy that
  -- `advance` raised; or left, because of a shutdown, or after another exception.
  abbrev pub Ends : (run_id : ℕ) → Option Principal → Tables → Dispatched → Type 0
  Ends run_id principal s d =
      ((d.acked ≡ true) × Rests run_id d.store)
      ⊎ ((d.acked ≡ true)
          × ((e : Error) × (message : Text) × Answers run_id principal s
                (raised (cynux e message))))
      ⊎ ((d.acked ≡ false) × ((partly : Tables → Tables) × (m.fate ≡ shuts_down partly)))
      ⊎ ((d.acked ≡ false) × Answers run_id principal s (raised unexpected))

  torn_down-Ends :
      (run_id now : ℕ) (ctx : RunContext) (principal : Option Principal) (s t : Tables)
      → Ends run_id principal t (torn_down ctx s (cancel_teardown now run_id ctx principal s))
  unfolding torn_down
  torn_down-Ends run_id now ctx principal s t =
      let (s', e, rests) = cancel_teardown_lem now run_id ctx principal s in
      inl (rw (e, torn_down) refl, rw (e, torn_down) rests)

  finished_run-Ends :
      (run_id : ℕ) (principal : Option Principal) (s : Tables)
      → m.fate ≡ finishes
      → Ends run_id principal s
          (finished_run (advance u m.world m.now m.later worker_id run_id principal s))
  unfolding finished_run is_cynux
  finished_run-Ends run_id principal s through =
      let left = advance u m.world m.now m.later worker_id run_id principal s in
      elim (Attempt-cases left.answer) [
        | inr (o, e) ↦ inl (
          rw (e, finished_run) refl,
          Records-Rests run_id o left.store
              (advance-Records u m.world m.now m.later worker_id run_id principal s e),
        )
        | inl (f, e) ↦ elim (Raised-cases f) [
          | inl fault ↦
              inr (inr (inr (rw (e, fault, finished_run) refl, (through, e ∙ ap raised fault))))
          | inr (code, message, known) ↦ inr (
              inl
                (rw (e, known, finished_run) refl, (code, message, (through, e ∙ ap raised known))))
        ]
      ]

  run_message-Ends :
      (run_id : ℕ) (ctx : RunContext) (principal : Option Principal) (s : Tables)
      → Ends run_id principal s (run_message u j worker_id claim_idle_ms m run_id ctx principal s)
  unfolding run_message
  run_message-Ends run_id ctx principal s = elim (Fate-cases m.fate) [
    | inl through ↦
        let same : run_message u j worker_id claim_idle_ms m run_id ctx principal s
            ≡ finished_run (advance u m.world m.now m.later worker_id run_id principal s) =
          rw (through, run_message) refl in
        subst (λ d. Ends run_id principal s d) (sym same)
          (finished_run-Ends run_id principal s through)
    | inr (inl (partly, e)) ↦
        let same : run_message u j worker_id claim_idle_ms m run_id ctx principal s
            ≡ torn_down ctx (partly s) (cancel_teardown m.later run_id ctx principal (partly s)) =
          rw (e, run_message) refl in
        subst (λ d. Ends run_id principal s d) (sym same)
          (torn_down-Ends run_id m.later ctx principal (partly s) s)
    | inr (inr (partly, e)) ↦
        let same : run_message u j worker_id claim_idle_ms m run_id ctx principal s
            ≡ record { acked = false; store = partly s; outputs = [] } =
          rw (e, run_message) refl in
        subst (λ d. Ends run_id principal s d) (sym same) (inr (inr (inl (refl, (partly, e)))))
  ]

  route-Ends :
      (run_id : ℕ) (ctx : RunContext) (principal : Option Principal) (s : Tables)
      → Ends run_id principal s (route u j worker_id claim_idle_ms m run_id ctx principal s)
  unfolding route
  route-Ends run_id ctx principal s = elim (Option-cases ctx.assessment_status) [
    | inl absent ↦ rw (absent, route) (run_message-Ends run_id ctx principal s)
    | inr (status, e) ↦ elim (Bool-cases (status_eq.equals status AssessmentStatus.cancelling)) [
      | inl cancels ↦ rw (e, cancels, route) (torn_down-Ends run_id m.now ctx principal s s)
      | inr other ↦ elim (Bool-cases (is_terminal status)) [
        | inl over ↦
            rw (e, other, over, route)
              (inl (refl, settle_orphaned_run-Rests m.now run_id (s.runs run_id) s refl))
        | inr live ↦ rw (e, other, live, route) (run_message-Ends run_id ctx principal s)
      ]
    ]
  ]

  -- What becomes of a message: one that cannot be read, or whose run is gone, is acknowledged and nothing
  -- is written; one that was reclaimed while its run's heartbeat is fresh is left, and the run
  -- is not driven; any other ends as `Ends` says, at the tables that the stamp of the message leaves.
  abbrev pub Fates :
      (message_id : Text) → Fields → (reclaimed : Bool) → Tables → Dispatched → Type 0
  Fates message_id fields reclaimed s d =
      ((d ≡ record { acked = true; store = s; outputs = [] })
        × (((e : Error) × (from_fields j u fields ≡ err e))
            ⊎ ((r : RunRequest) × (from_fields j u fields ≡ ok r) × (s.runs r.run_id ≡ none))))
      ⊎ ((r : RunRequest) × (ctx : RunContext) × (s' : Tables) × (from_fields j u fields ≡ ok r)
          × (load_context r.run_id message_id s ≡ some (ctx, s'))
          × (((d ≡ record { acked = false; store = s'; outputs = [] })
                × ((reclaimed && heartbeat_fresh m.now claim_idle_ms ctx.heartbeat_at) ≡ true))
              ⊎ Ends r.run_id (principal_of u j worker_id claim_idle_ms r) s' d))

  no_context :
      (run_id : ℕ) (message_id : Text) (s : Tables)
      → load_context run_id message_id s ≡ none
      → s.runs run_id ≡ none
  unfolding load_context
  no_context run_id message_id s h = ground (arith, h)

  -- A message is acknowledged only if it cannot be read, its run is gone, paused or over, or `advance`
  -- raised an error of the taxonomy; it is left to be delivered again only if a live worker
  -- has the run, if this worker shuts down, or if `advance` raised another exception.
  pub dispatch_lem :
      (message_id : Text) (fields : Fields) (reclaimed : Bool) (s : Tables)
      → Fates message_id fields reclaimed s
          (dispatch u j worker_id claim_idle_ms m message_id fields reclaimed s)
  unfolding dispatch handle
  dispatch_lem message_id fields reclaimed s = elim (Result-cases (from_fields j u fields)) [
    | inl (e, unread) ↦ inl (rw (unread, dispatch) refl, inl (e, unread))
    | inr (r, read) ↦ elim (Option-cases (load_context r.run_id message_id s)) [
      | inl gone ↦ inl (
        rw (read, dispatch) (rw (gone, handle) refl),
        inr (r, read, no_context r.run_id message_id s gone),
      )
      | inr ((ctx, s'), loaded) ↦ inr (
        r,
        ctx,
        s',
        read,
        loaded,
        elim (Bool-cases (reclaimed && heartbeat_fresh m.now claim_idle_ms ctx.heartbeat_at)) [
          | inl owned ↦ inl (rw (read, dispatch) (rw (loaded, owned, handle) refl), owned)
          | inr free ↦
              let same : dispatch u j worker_id claim_idle_ms m message_id fields reclaimed s
                  ≡ route u j worker_id claim_idle_ms m r.run_id ctx
                      (principal_of u j worker_id claim_idle_ms r) s' =
                rw (read, dispatch) (rw (loaded, free, handle) refl) in
              inr (
                subst (λ d. Ends r.run_id (principal_of u j worker_id claim_idle_ms r) s' d)
                  (sym same)
                  (route-Ends r.run_id ctx (principal_of u j worker_id claim_idle_ms r) s'))
        ],
      )
    ]
  ]
