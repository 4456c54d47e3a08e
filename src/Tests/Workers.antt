-- ===== src/Tests/Workers.antt =====
-- Messages of one run, in the hands of a worker.
use cyber.Base.{◌≡◌, refl, true, false, none, some, [], ◌∷◌, codes, arith}
use cyber.Assessment.Status.{AssessmentStatus}
use cyber.Assessment.Service.{Assessment}
use cyber.Queue.Protocol.{
  Fields, from_fields, field, required, or_empty, action_named, decode_principal,
}
use cyber.Identity.State.{uuid_of}
use cyber.Job.Data.{JobStatus}
use cyber.Runner.Data.{running, AgentRun, Tables, returned, is_final, put_run}
use cyber.Runner.Enter.{owned}
use cyber.Worker.Teardown.{
  RunContext, assessment_of, context_of, cancel_teardown, load_context, stamp_message,
  names_message, heartbeat_fresh,
}
use cyber.Worker.Dispatch.{Moment, finishes, handle, dispatch}
use cyber.Worker.Acks.{Fates, dispatch_lem}
use cyber.Worker.Cancelling.{TornDown, cancel_teardown-TornDown}
use cyber.Tests.Identities.{engineer}
use cyber.Tests.Assessments.{in_scan}
use cyber.Tests.Lives.{job}
use cyber.Tests.Queues.{marked, plain}
use cyber.Tests.Runs.{waiting_run, row_of, tables, pausing}

-- The run of another worker, whose last heartbeat was at 5000.
abbrev held_run : AgentRun
held_run = record waiting_run { status = running; heartbeat_at = some 5000 }

abbrev at_9000 : Moment
at_9000 = record { world = pausing; fate = finishes; now = 9000; later = 9100; stopping = false }

abbrev redelivered : Fields
redelivered = ("run_id", "uIII") ∷ ("action", "resume") ∷ []

dispatch_lem_example :
    Fates marked plain
      (some 9)
      30000
      at_9000
      (codes "8-1")
      redelivered
      true
      (tables held_run in_scan)
      (dispatch marked plain
        (some 9)
        30000
        at_9000
        (codes "8-1")
        redelivered
        true
        (tables held_run in_scan))
dispatch_lem_example =
    dispatch_lem marked plain (some 9) 30000 at_9000 (codes "8-1") redelivered true
      (tables held_run in_scan)

-- The live worker's message is left to it.
left_alone :
    (dispatch marked plain
      (some 9)
      30000
      at_9000
      (codes "8-1")
      redelivered
      true
      (tables held_run in_scan)).acked
    ≡ false
unfolding dispatch from_fields field required or_empty action_named decode_principal uuid_of handle
    load_context context_of stamp_message names_message is_final heartbeat_fresh put_run
left_alone = refl

abbrev stopping_assessment : Assessment
stopping_assessment = record in_scan { status = AssessmentStatus.cancelling }

abbrev scanning_tables : Tables
scanning_tables = record (tables held_run stopping_assessment) {
  jobs = record (job 1 7 JobStatus.running) { assessment_id = 4 } ∷ job 2 8 JobStatus.queued ∷ [];
}

abbrev context : RunContext
context = record {
  run_status = running;
  organization_id = 7;
  assessment_id = some 4;
  session_id = some 5;
  heartbeat_at = some 5000;
  assessment_status = some AssessmentStatus.cancelling;
}

cancel_teardown-TornDown_example :
    (s' : Tables) × (cancel_teardown 9000 3 context (some engineer) scanning_tables ≡ returned s')
    × TornDown 9000 3 context (some engineer) (row_of stopping_assessment) scanning_tables 8 s'
    × (cancel_teardown 9500 3 context none s' ≡ returned s')
unfolding assessment_of owned
cancel_teardown-TornDown_example =
    cancel_teardown-TornDown 9000 3 context (some engineer) (row_of stopping_assessment)
      scanning_tables refl refl refl 8 (λ e. omega (arith, e)) 9500 none
