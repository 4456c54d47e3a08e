-- ===== src/Runner/Data.antt =====
-- backend/app/db/models/agent.py and backend/app/agent/runner.py: a run's row, what the graph keeps of
-- it, and the tables that a run touches. An identifier is a number, a time counts milliseconds.
use Prim.Native.String.{String}
use cyber.Base.{
  ℕ, ◌≡◌, refl, Bool, true, false, Option, some, List, ◌==◌, if◌then◌else◌, Text, ◌⊎◌, inl, inr,
  arith,
}
use cyber.Base.Errors
use cyber.Base.Errors.{Error}
use cyber.Identity.State.{PrincipalState}
use cyber.Assessment.Service.{Assessment}
use cyber.Job.Data.{ScannerJob}
use cyber.Agent.Graph.{Node, AssessmentDepth}

pub data AgentRunStatus : Type 0 where
  queued running interrupted completed failed cancelled : AgentRunStatus

-- `status in _TERMINAL_RUN_STATUSES`
unfoldable pub is_final : AgentRunStatus → Bool
is_final completed = true
is_final failed = true
is_final cancelled = true
is_final _ = false

-- `status is AgentRunStatus.RUNNING`
unfoldable pub is_running : AgentRunStatus → Bool
is_running running = true
is_running _ = false

unfoldable pub is_queued : AgentRunStatus → Bool
is_queued queued = true
is_queued _ = false

unfoldable pub is_interrupted : AgentRunStatus → Bool
is_interrupted interrupted = true
is_interrupted _ = false

pub data ErrorCategory : Type 0 where
  user_error scanner_error integration_error ai_error config_error authorization_error
        internal_error :
      ErrorCategory

-- The `category` of an error's class; an error outside the taxonomy is wrapped as an internal one.
unfoldable pub category : Error → ErrorCategory
category Errors.user_error = user_error
category Errors.invalid_target = user_error
category Errors.target_denied = user_error
category Errors.not_found = user_error
category Errors.conflict = user_error
category Errors.tenant_isolation = authorization_error
category Errors.authentication = authorization_error
category Errors.permission_denied = authorization_error
category Errors.scanner_error = scanner_error
category Errors.docker_unavailable = scanner_error
category Errors.unsafe_invocation = internal_error
category Errors.storage_error = integration_error
category Errors.circuit_open = integration_error
category Errors.integration_not_configured = config_error
category Errors.value_error = internal_error
category Errors.unverifiable_claim = ai_error
category Errors.internal = internal_error

-- What was raised: an error of the taxonomy, with its message for the user, or another exception.
pub data Raised : Type 0 where
  cynux : Error → (user_message : Text) → Raised
  unexpected : Raised

-- What a step leaves: what it raised, or its value.
pub data Attempt (A : Type 0) : Type 0 where
  raised : Raised → Attempt A
  returned : A → Attempt A

-- `raise e` where the test holds.
abbrev pub refuse_if : {A : Type 0} → (test : Bool) → Raised → Attempt A → Attempt A
refuse_if true e rest = raised e
refuse_if false e rest = rest

infixl 6 ◌>>=◌
-- The second step runs on the value of the first; what is raised ends the chain.
abbrev pub ◌>>=◌ : {A B : Type 0} → Attempt A → (A → Attempt B) → Attempt B
first >>= second = elim first [ returned value ↦ second value | raised e ↦ raised e ]

-- `AgentRun`, the columns that the runner and the worker read or write. `interrupt_kind` has one value,
-- so it is whether it is set.
pub record AgentRun : Type 0 where
  pub id : ℕ
  pub organization_id : ℕ
  pub session_id : Option ℕ
  pub assessment_id : Option ℕ
  pub thread_id : Text
  pub status : AgentRunStatus
  pub current_node : Option Node
  pub interrupt_kind : Bool
  pub pending_approval_id : Option ℕ
  pub queue_message_id : Option Text
  pub worker_id : Option ℕ
  pub heartbeat_at : Option ℕ
  pub started_at : Option ℕ
  pub completed_at : Option ℕ
  pub resumed_count : ℕ
  pub failure_reason : Option Text
  pub failure_category : Option ErrorCategory

-- An assessment's row with the columns that only the runner uses; `objective` is that of its
-- `request_interpretation`.
pub record AssessmentRow : Type 0 where
  pub row : Assessment
  pub objective : Text
  pub depth : AssessmentDepth
  pub findings_total : ℕ
  pub failure_category : Option ErrorCategory

-- What the graph library has of a thread. The channels hold text, and the principal as a dict.
pub record StateSnapshot : Type 0 where
  pub next : List Node
  pub created_at : Option ℕ
  pub approval_id : Option String
  pub report_id : Option String
  pub principal : Option PrincipalState

-- An organization's integration with a model provider.
pub record Integration : Type 0 where
  pub name : Text
  pub is_enabled : Bool
  pub is_disabled : Bool

-- The tables by primary key, and the checkpoints by thread, with `none` for one that cannot be read.
pub record Tables : Type 0 where
  pub runs : ℕ → Option AgentRun
  pub assessments : ℕ → Option AssessmentRow
  pub jobs : List ScannerJob
  pub integrations : ℕ → Option Integration
  pub checkpoints : Text → Option StateSnapshot

-- The UPDATE of one run's row, by its key.
unfoldable pub put_run : (id : ℕ) → AgentRun → Tables → Tables
put_run id run s = record s { runs = λ i. if i == id then some run else s.runs i }

-- The UPDATE of one assessment's row, by its key.
unfoldable pub put_assessment : (id : ℕ) → AssessmentRow → Tables → Tables
put_assessment id row s = record s {
  assessments = λ i. if i == id then some row else s.assessments i;
}

-- `RunOutcome`
pub record RunOutcome : Type 0 where
  pub run_id : ℕ
  pub status : AgentRunStatus
  pub report_id : Option ℕ
  pub findings_total : ℕ
  pub failure_category : Option ErrorCategory

-- A chain that went through has a value at every step.
pub >>=-returned :
    {A B : Type 0} (first : Attempt A) (second : A → Attempt B) {answer : B}
    → (first >>= second) ≡ returned answer
    → (value : A) × (first ≡ returned value) × (second value ≡ returned answer)
>>=-returned (raised e) second h = cc
>>=-returned (returned value) second h = (value, refl, h)

pub Attempt-cases :
    {A : Type 0} (a : Attempt A)
    → ((e : Raised) × (a ≡ raised e)) ⊎ ((value : A) × (a ≡ returned value))
Attempt-cases (raised e) = inl (e, refl)
Attempt-cases (returned value) = inr (value, refl)

pub returned_inj : {A : Type 0} {a b : A} → returned a ≡ returned b → a ≡ b
returned_inj h = cc

pub runs-put_run : (id : ℕ) (run : AgentRun) (s : Tables) → (put_run id run s).runs id ≡ some run
unfolding put_run
runs-put_run id run s = ground arith

pub assessments-put_assessment :
    (id : ℕ) (a : AssessmentRow) (s : Tables) → (put_assessment id a s).assessments id ≡ some a
unfolding put_assessment
assessments-put_assessment id a s = ground arith
