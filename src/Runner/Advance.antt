-- ===== src/Runner/Advance.antt =====
-- `AgentRunner.advance`. The graph and its nodes are a parameter: what an invocation does to the tables
-- and the checkpoints, and what it raises; so is what other workers write between the two transactions
-- that look at the run.
use cyber.Base.{ℕ, Bool, true, false, Option, none, some, List, [], if◌then◌else◌, Text}
use cyber.Base.Errors.{conflict}
use cyber.Identity.{Principal}
use cyber.Approval.Data.{Uuid}
use cyber.Runner.Data.{
  AgentRunStatus, is_final, Raised, cynux, Attempt, raised, returned, AgentRun, Tables, RunOutcome,
}
use cyber.Runner.Enter.{Seed, inspect, resolve_settings, enter}
use cyber.Runner.Settle.{Output, Settled, settle, settle_failure}

pub record World : Type 0 where
  pub meanwhile : Tables → Tables
  -- `graph.ainvoke(seed, config)`
  pub ainvoke : Option Seed → Text → Tables → Tables
  pub fails : Option Seed → Text → Tables → Option Raised

-- What `advance` leaves, and whether it returned.
pub record Advanced : Type 0 where
  pub answer : Attempt RunOutcome
  pub store : Tables
  pub outputs : List Output

-- `_outcome_from`
unfoldable pub outcome_from : AgentRun → RunOutcome
outcome_from run = record {
  run_id = run.id;
  status = run.status;
  report_id = none;
  findings_total = 0;
  failure_category = run.failure_category;
}

-- A settlement that raised has written nothing.
unfoldable pub conclude : Tables → Attempt Settled → Advanced
conclude s (raised e) = record { answer = raised e; store = s; outputs = [] }
conclude s (returned settled) = record {
  answer = returned settled.outcome;
  store = settled.store;
  outputs = settled.outputs;
}

-- `except ConflictError: raise`
unfoldable pub is_conflict : Raised → Bool
is_conflict (cynux conflict message) = true
is_conflict _ = false

module _ (u : Uuid) (w : World) (now later : ℕ) (worker_id : Option ℕ) (run_id : ℕ)
    (principal : Option Principal) where
  -- The invocation, and what comes of it.
  unfoldable pub drive : Text → Option Seed → Tables → Advanced
  unfolding conclude settle settle_failure
  drive thread_id seed s =
      let s' = w.ainvoke seed thread_id s in
      elim (w.fails seed thread_id s) [
        | none ↦ conclude s' (settle u later run_id thread_id s')
        | some e ↦ conclude s' (settle_failure u later run_id thread_id e principal s')
      ]

  -- The entry, and what comes of it.
  unfoldable pub begin : Text → AgentRunStatus → Tables → Advanced
  unfolding drive enter conclude settle_failure is_conflict
  begin thread_id status s = elim (enter u now worker_id run_id thread_id status principal s) [
    | returned (seed, s') ↦ drive thread_id seed s'
    | raised e ↦
        if is_conflict e
        then record { answer = raised e; store = s; outputs = [] }
        else conclude s (settle_failure u later run_id thread_id e principal s)
  ]

  -- A run that is not settled.
  unfoldable pub resume_run : AgentRun → Tables → Advanced
  unfolding begin resolve_settings
  resume_run run s = elim (resolve_settings run.organization_id s) [
    | raised e ↦ record { answer = raised e; store = s; outputs = [] }
    | returned ready ↦ begin run.thread_id run.status s
  ]

  -- `AgentRunner.advance`
  unfoldable pub advance : Tables → Advanced
  unfolding inspect outcome_from resume_run
  advance s = elim (inspect run_id s) [
    | raised e ↦ record { answer = raised e; store = s; outputs = [] }
    | returned run ↦
        if is_final run.status
        then record { answer = returned (outcome_from run); store = s; outputs = [] }
        else resume_run run (w.meanwhile s)
  ]
