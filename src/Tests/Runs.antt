-- ===== src/Tests/Runs.antt =====
-- One assessment's run, taken through `advance`.
use cyber.Base.{◌≡◌, refl, true, false, none, some, [], ◌∷◌, codes, ◌==◌, if◌then◌else◌}
use cyber.Base.Errors.{docker_unavailable}
use cyber.Assessment.Status.{is_terminal, allowed_transitions}
use cyber.Assessment.Service.{Assessment, transition}
use cyber.Agent.Graph.{Node, standard}
use cyber.Tests.Identities.{engineer}
use cyber.Tests.Assessments.{fresh, in_scan}
use cyber.Tests.Queues.{marked}
use cyber.Runner.Data.{
  queued, interrupted, completed, failed, is_final, is_running, is_queued, is_interrupted,
  scanner_error, category, cynux, returned, AgentRun, AssessmentRow, StateSnapshot, Tables, put_run,
  put_assessment, RunOutcome,
}
use cyber.Runner.Enter.{
  misconfigured, load_run, run_identity, owned, load_assessment, inspect, resolve_settings,
  must_seed, seed_for, take_run, enter,
}
use cyber.Runner.Settle.{
  failed_row, failed_assessment, optional_state_uuid, readable, recover_principal, settle_interrupt,
  settle_snapshot, settle, settle_failure, error_category,
}
use cyber.Runner.Advance.{World, conclude, drive, begin, resume_run, advance}
use cyber.Runner.Outcomes.{Records}
use cyber.Runner.Redelivery.{advance-Records, advance-advance}
use cyber.Runner.Failing.{Ended, advance-Ended}
use cyber.Runner.Authority.{advance_unseeded}

abbrev pub waiting_run : AgentRun
waiting_run = record {
  id = 3;
  organization_id = 7;
  session_id = some 5;
  assessment_id = some 4;
  thread_id = codes "t3";
  status = queued;
  current_node = none;
  interrupt_kind = false;
  pending_approval_id = none;
  queue_message_id = none;
  worker_id = none;
  heartbeat_at = none;
  started_at = none;
  completed_at = none;
  resumed_count = 0;
  failure_reason = none;
  failure_category = none;
}

abbrev pub row_of : Assessment → AssessmentRow
row_of a = record {
  row = a;
  objective = [];
  depth = standard;
  findings_total = 2;
  failure_category = none;
}

abbrev pub nothing_yet : StateSnapshot
nothing_yet = record {
  next = [];
  created_at = none;
  approval_id = none;
  report_id = none;
  principal = none;
}

-- The tables with one run and one assessment.
abbrev pub tables : AgentRun → Assessment → Tables
tables run a = record {
  runs = λ i. if i == 3 then some run else none;
  assessments = λ i. if i == 4 then some (row_of a) else none;
  jobs = [];
  integrations = λ o. none;
  checkpoints = λ t. some nothing_yet;
}

-- A graph that stops before the scanners.
abbrev pub pausing : World
pausing = record {
  meanwhile = λ s. s;
  ainvoke = λ seed t s. record s {
    checkpoints = λ t'. some (record nothing_yet {
      next = Node.execute_scanners ∷ [];
      created_at = some 120;
      approval_id = some "uII";
    });
  };
  fails = λ seed t s. none;
}

-- A graph whose scanners cannot be started.
abbrev pub breaking : World
breaking = record {
  meanwhile = λ s. s;
  ainvoke = λ seed t s. s;
  fails = λ seed t s. some (cynux docker_unavailable (codes "Docker is not running."));
}

paused : RunOutcome
paused = record {
  run_id = 3;
  status = interrupted;
  report_id = none;
  findings_total = 0;
  failure_category = none;
}

pauses :
    (advance marked pausing 100 200 (some 9) 3 (some engineer) (tables waiting_run fresh)).answer
    ≡ returned paused
unfolding advance resume_run begin drive enter take_run inspect load_run run_identity
    resolve_settings must_seed seed_for load_assessment owned settle settle_snapshot
    settle_interrupt optional_state_uuid conclude is_final is_running is_queued is_interrupted
    put_run paused
pauses = refl

advance-Records_example :
    Records 3 paused
      (advance marked pausing 100 200 (some 9) 3 (some engineer) (tables waiting_run fresh)).store
advance-Records_example =
    advance-Records marked pausing 100 200 (some 9) 3 (some engineer) (tables waiting_run fresh)
      pauses

abbrev broken : RunOutcome
broken = record {
  run_id = 3;
  status = failed;
  report_id = none;
  findings_total = 0;
  failure_category = some scanner_error;
}

breaks :
    (advance marked breaking 100 200 (some 9) 3 (some engineer) (tables waiting_run in_scan)).answer
    ≡ returned broken
unfolding advance resume_run begin drive enter take_run inspect load_run run_identity
    resolve_settings must_seed seed_for load_assessment owned settle_failure failed_assessment
    transition allowed_transitions is_terminal recover_principal readable error_category category
    conclude is_final is_running is_queued is_interrupted put_run put_assessment
breaks = refl

-- The first call fails; the second, under a graph that would pause, reports the failure.
advance-advance_example :
    (o' : RunOutcome) × (o'.status ≡ failed)
    × (let t =
          (advance marked breaking 100 200
            (some 9)
            3
            (some engineer)
            (tables waiting_run in_scan)).store in
        advance marked pausing 300 400 (some 8) 3 none t
        ≡ record { answer = returned o'; store = t; outputs = [] })
unfolding is_final
advance-advance_example =
    advance-advance marked breaking 100 200 (some 9) 3 (some engineer) (tables waiting_run in_scan)
      breaks refl pausing 300 400 (some 8) none

found : inspect 3 (tables waiting_run in_scan) ≡ returned waiting_run
unfolding inspect load_run run_identity
found = refl

not_settled : is_final queued ≡ false
unfolding is_final
not_settled = refl

advance-Ended_example :
    Ended 3
      (advance marked breaking 100 200
        (some 9)
        3
        (some engineer)
        (tables waiting_run in_scan)).store
advance-Ended_example =
    advance-Ended marked breaking 100 200 (some 9) 3 (some engineer) (tables waiting_run in_scan)
      waiting_run found not_settled breaks refl

-- Another worker completes the run between the two looks at it.
abbrev settled_run : AgentRun
settled_run = record waiting_run { status = completed; completed_at = some 90 }

abbrev overtaking : World
overtaking = record pausing { meanwhile = λ s. tables settled_run in_scan }

-- The run that was completed is marked failed.
advance_unseeded_example :
    (o : RunOutcome) × (a' : AssessmentRow) × ((advance marked overtaking 100 200
        (some 9)
        3
        none
        (tables waiting_run in_scan)).answer
      ≡ returned o)
    × (o.status ≡ failed)
    × ((advance marked overtaking 100 200 (some 9) 3 none (tables waiting_run in_scan)).store
        ≡ put_assessment 4 a'
            (put_run 3 (failed_row 200 misconfigured settled_run) (tables settled_run in_scan)))
    × (is_terminal a'.row.status ≡ true)
unfolding resolve_settings must_seed is_running is_interrupted run_identity load_assessment owned
advance_unseeded_example =
    advance_unseeded marked overtaking 100 200 (some 9) 3 (tables waiting_run in_scan) waiting_run
      settled_run (4, 5) (row_of in_scan) found not_settled refl refl refl refl refl
