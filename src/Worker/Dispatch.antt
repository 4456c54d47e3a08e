-- ===== src/Worker/Dispatch.antt =====
-- `_dispatch`, `_run` and the loops that call them. What the tasks of the event loop do to a run is a
-- parameter: whether `advance` comes to its end, or is cancelled halfway.
use cyber.Base.{ℕ, Bool, true, false, ◌&&◌, Option, none, some, List, [], if◌then◌else◌, Text}
use cyber.Base.Errors.{ok, err}
use cyber.Identity.{Principal}
use cyber.Assessment.Status.{AssessmentStatus, status_eq, is_terminal}
use cyber.Approval.Data.{Uuid}
use cyber.Queue.Protocol.{RunRequest, Json, Fields, from_fields}
use cyber.Runner.Data.{Raised, cynux, unexpected, Attempt, raised, returned, Tables}
use cyber.Runner.Settle.{Output, readable}
use cyber.Runner.Advance.{World, Advanced, advance}
use cyber.Worker.Teardown.{
  RunContext, load_context, cancel_teardown, teardown_outputs, settle_orphaned_run, heartbeat_fresh,
}

-- How the task of `advance` ends: by itself, or cancelled, after it has done a part of its work, for the
-- operator or for a shutdown.
pub data Fate : Type 0 where
  finishes : Fate
  operator_cancels shuts_down : (partly : Tables → Tables) → Fate

-- What a message leaves: whether it is acknowledged, the tables, and what the outside was told.
pub record Dispatched : Type 0 where
  pub acked : Bool
  pub store : Tables
  pub outputs : List Output

-- `except ConflictError` and `except CynuxError`
unfoldable pub is_cynux : Raised → Bool
is_cynux (cynux e message) = true
is_cynux unexpected = false

-- What `_run` makes of the end of `advance`.
unfoldable pub finished_run : Advanced → Dispatched
unfolding is_cynux
finished_run left = record {
  acked = elim left.answer [ returned o ↦ true | raised e ↦ is_cynux e ];
  store = left.store;
  outputs = left.outputs;
}

-- A teardown, and the acknowledgement that follows it.
unfoldable pub torn_down : RunContext → Tables → Attempt Tables → Dispatched
unfolding teardown_outputs
torn_down ctx s (raised e) = record { acked = false; store = s; outputs = [] }
torn_down ctx s (returned s') = record { acked = true; store = s'; outputs = teardown_outputs ctx }

-- What the worker and its surroundings are while it handles one message.
pub record Moment : Type 0 where
  pub world : World
  pub fate : Fate
  pub now : ℕ
  pub later : ℕ
  pub stopping : Bool

module _ (u : Uuid) (j : Json) (worker_id : Option ℕ) (claim_idle_ms : ℕ) where
  -- `_principal_of`
  unfoldable pub principal_of : RunRequest → Option Principal
  unfolding readable
  principal_of r = readable u r.principal

  -- `_run`
  unfoldable pub run_message :
      Moment → (run_id : ℕ) → RunContext → Option Principal → Tables → Dispatched
  unfolding advance cancel_teardown finished_run torn_down
  run_message m run_id ctx principal s = elim m.fate [
    | finishes ↦ finished_run (advance u m.world m.now m.later worker_id run_id principal s)
    | operator_cancels partly ↦
        torn_down ctx (partly s) (cancel_teardown m.later run_id ctx principal (partly s))
    | shuts_down partly ↦ record { acked = false; store = partly s; outputs = [] }
  ]

  -- `_dispatch`, by the status of the assessment
  unfoldable pub route : Moment → (run_id : ℕ) → RunContext → Option Principal → Tables → Dispatched
  unfolding run_message cancel_teardown torn_down settle_orphaned_run
  route m run_id ctx principal s = elim ctx.assessment_status [
    | none ↦ run_message m run_id ctx principal s
    | some status ↦
        if status_eq.equals status AssessmentStatus.cancelling
        then torn_down ctx s (cancel_teardown m.now run_id ctx principal s)
        else if is_terminal status
        then record {
          acked = true;
          store = settle_orphaned_run m.now run_id (s.runs run_id) s;
          outputs = [];
        }
        else run_message m run_id ctx principal s
  ]

  -- `_dispatch`, of a request that could be read
  unfoldable pub handle :
      Moment → (message_id : Text) → RunRequest → (reclaimed : Bool) → Tables → Dispatched
  unfolding load_context heartbeat_fresh route principal_of
  handle m message_id r reclaimed s = elim (load_context r.run_id message_id s) [
    | none ↦ record { acked = true; store = s; outputs = [] }
    | some (ctx, s') ↦
        if reclaimed && heartbeat_fresh m.now claim_idle_ms ctx.heartbeat_at
        then record { acked = false; store = s'; outputs = [] }
        else route m r.run_id ctx (principal_of r) s'
  ]

  -- `_dispatch`
  unfoldable pub dispatch :
      Moment → (message_id : Text) → Fields → (reclaimed : Bool) → Tables → Dispatched
  unfolding from_fields handle
  dispatch m message_id fields reclaimed s = elim (from_fields j u fields) [
    | err e ↦ record { acked = true; store = s; outputs = [] }
    | ok r ↦ handle m message_id r reclaimed s
  ]
