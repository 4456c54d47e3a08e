-- ===== src/Runner/Enter.antt =====
-- `_inspect` and `_enter`, and the loading of rows.
use cyber.Base.{
  ℕ, suc, Bool, false, not, ◌&&◌, Option, none, some, ◌==◌, if◌then◌else◌, Text, codes, is_some,
  ◌++◌,
}
use cyber.Base.Errors.{conflict, not_found, internal, integration_not_configured}
use cyber.Identity.{Principal}
use cyber.Identity.State.{PrincipalState, to_dict}
use cyber.Approval.Data.{Uuid}
use cyber.Agent.Graph.{AssessmentDepth}
use cyber.Runner.Data.{
  AgentRunStatus, running, is_final, is_running, is_queued, is_interrupted, Raised, cynux, Attempt,
  raised, returned, refuse_if, ◌>>=◌, AgentRun, AssessmentRow, StateSnapshot, Tables, put_run,
}

abbrev pub misconfigured : Raised
misconfigured =
    cynux internal (codes "This assessment run is misconfigured and cannot be processed.")

-- `_load_run`
unfoldable pub load_run : ℕ → Tables → Attempt AgentRun
load_run run_id s = elim (s.runs run_id) [
  | none ↦ raised (cynux internal (codes "This assessment run could not be found."))
  | some run ↦ returned run
]

-- `_run_identity`
unfoldable pub run_identity : AgentRun → Attempt (ℕ × ℕ)
run_identity run = elim run.assessment_id [
  | none ↦ raised misconfigured
  | some assessment_id ↦ elim run.session_id [
    | none ↦ raised misconfigured
    | some session_id ↦ returned (assessment_id, session_id)
  ]
]

-- The row, if it is of this organization.
unfoldable pub owned : ℕ → Option AssessmentRow → Option AssessmentRow
owned organization_id none = none
owned organization_id (some a) = if a.row.organization_id == organization_id then some a else none

-- `_load_assessment`
unfoldable pub load_assessment :
    (organization_id assessment_id : ℕ) → Tables → Attempt AssessmentRow
unfolding owned
load_assessment organization_id assessment_id s =
    elim (owned organization_id (s.assessments assessment_id)) [
      | none ↦ raised (cynux not_found (codes "That assessment no longer exists."))
      | some a ↦ returned a
    ]

-- `_inspect`: the row of a run that is an assessment's.
unfoldable pub inspect : ℕ → Tables → Attempt AgentRun
unfolding load_run run_identity
inspect run_id s = do run ← load_run run_id s; ids ← run_identity run; returned run

-- `resolve_settings` for the model provider of an organization (services/integration.py), where the
-- secrets can be decrypted.
unfoldable pub resolve_settings : ℕ → Tables → Attempt (Unit {0})
resolve_settings organization_id s = elim (s.integrations organization_id) [
  | none ↦ returned tt
  | some i ↦
      if not (i.is_enabled && not i.is_disabled)
      then raised (
          cynux integration_not_configured (
            codes "llm is not configured for this organization. The "
            ++ i.name
            ++ codes " integration is disabled."))
      else returned tt
]

-- `_has_checkpoint`, of what the library gives for the thread
unfoldable pub has_checkpoint : Option StateSnapshot → Bool
has_checkpoint none = false
has_checkpoint (some snapshot) = is_some snapshot.created_at

-- `AssessmentState` as it is seeded; the scope and its budget are not modelled.
pub record Seed : Type 0 where
  pub assessment_id : ℕ
  pub organization_id : ℕ
  pub session_id : ℕ
  pub run_id : ℕ
  pub thread_id : Text
  pub principal : PrincipalState
  pub objective : Text
  pub depth : AssessmentDepth

-- Whether a run of this status is to start over.
unfoldable pub must_seed : AgentRunStatus → Text → Tables → Bool
unfolding has_checkpoint
must_seed status thread_id s =
    not (
      if is_running status then has_checkpoint (s.checkpoints thread_id) else is_interrupted status)

-- The row of a run that is entered.
unfoldable pub entered_row :
    (now : ℕ) (worker_id : Option ℕ) → AgentRunStatus → (seeds : Bool) → AgentRun → AgentRun
entered_row now worker_id status seeds run =
    let taken = record run {
      status = running;
      worker_id = worker_id;
      heartbeat_at = some now;
      current_node = if seeds then none else run.current_node;
    } in
    if is_queued status
    then record taken { started_at = if is_some run.started_at then run.started_at else some now }
    else record taken {
      resumed_count = suc run.resumed_count;
      interrupt_kind = false;
      pending_approval_id = none;
    }

module _ (u : Uuid) where
  -- `initial_state`, as `_enter` calls it
  unfoldable pub initial_state : AgentRun → (session_id : ℕ) → Principal → AssessmentRow → Seed
  unfolding to_dict
  initial_state run session_id p a = record {
    assessment_id = a.row.id;
    organization_id = run.organization_id;
    session_id = session_id;
    run_id = run.id;
    thread_id = run.thread_id;
    principal = to_dict u p;
    objective = a.objective;
    depth = a.depth;
  }

  -- The seed, for a run that starts over.
  unfoldable pub seed_for :
      AgentRun → (assessment_id session_id : ℕ) → Option Principal → Tables → Attempt (Option Seed)
  unfolding load_assessment initial_state
  seed_for run assessment_id session_id none s = returned none
  seed_for run assessment_id session_id (some p) s = do
    a ← load_assessment run.organization_id assessment_id s
    returned (some (initial_state run session_id p a))

  -- The transaction of `_enter`; `seed_principal` is given for a run that starts over.
  unfoldable pub take_run :
      (now : ℕ) (worker_id : Option ℕ) (run_id : ℕ)
      → AgentRunStatus
      → (seed_principal : Option Principal) → Tables
      → Attempt (Option Seed × Tables)
  unfolding load_run run_identity entered_row seed_for put_run
  take_run now worker_id run_id status seed_principal s = do
    run ← load_run run_id s
    free ←
        refuse_if (is_final run.status)
          (cynux conflict (codes "This assessment run has already finished.")) (returned (tt {0}))
    ids ← run_identity run
    seed ← seed_for run ids.0 ids.1 seed_principal s
    returned
        (seed, put_run run_id (entered_row now worker_id status (is_some seed_principal) run) s)

  -- `_enter`
  unfoldable pub enter :
      (now : ℕ) (worker_id : Option ℕ) (run_id : ℕ) (thread_id : Text)
      → AgentRunStatus
      → Option Principal
      → Tables
      → Attempt (Option Seed × Tables)
  unfolding must_seed take_run
  enter now worker_id run_id thread_id status none s =
      refuse_if (must_seed status thread_id s) misconfigured
        (take_run now worker_id run_id status none s)
  enter now worker_id run_id thread_id status (some p) s =
      take_run now worker_id run_id status (if must_seed status thread_id s then some p else none) s
