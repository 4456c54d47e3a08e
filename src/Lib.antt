-- ===== src/Lib.antt =====
-- Cynux, the backend of a security assessment platform (backend/app). An operator starts an
-- assessment of the assets of an organization; an agent plans it, discovers assets, asks for an
-- approval, runs scanners in containers, imports and ranks the findings, and writes a report.
--
-- The parts and their files:
-- - Base: shared names, tests on numbers, lists, Python's string methods (Base/Strings), and the
--   errors of core/errors.py as the values of a result type (Base/Errors).
-- - Identity: db/enums.py (Role, Permission, PERMISSIONS) and services/context.py (Principal).
--   The services that act for a member ask `require` first.
-- - Repository: db/repository.py, TenantRepository over a table as a list of rows; a row type is
--   an instance of `Tenanted`. Assessments, approvals and jobs are read through
--   it; Update is an UPDATE statement with a condition, which approvals, jobs and reset links share. Refinement
--   sets it against a store for each tenant.
-- - Audit: services/audit.py, the row that `record` appends.
-- - Redis: core/redis_client.py, keys that expire, the deny list of tokens, and the two limiters of requests
--   (Limits, with the theorems on them).
-- - Auth: services/auth.py and core/security.py. Data has the rows, the tokens and the libraries that hash
--   and sign as parameters, Login and Session the requests, Password the reset links; Lockout, Rotation,
--   Redeem and Authority are the theorems. What `resolve_principal` gives is the principal of the services.
-- - Organization: services/organization.py, the members and their roles; Owners and Escalation are the
--   theorems. Auth reads the same memberships.
-- - Prompt: llm/budget.py, how a prompt is cut to a number of characters; Kept are the theorems.
-- - Targets: core/targets.py, what may be scanned. Classify reads a target, Policy decides on it, Ranges are
--   the theorems on ranges.
-- - Agent: agent/graph.py with scanners/registry.py (Graph, and Pipeline for the paths along its edges), and
--   agent/nodes/scan.py (Scan, and Authorized for its theorem), and agent/nodes/approval.py (Request, and
--   Reentry for its theorem). The scan node reads the approval by Approval's
--   operations and validates each target by Targets'.
-- - Runner: agent/runner.py. Data are the rows and the tables, Enter and Settle the transactions, Advance
--   `AgentRunner.advance`; Outcomes, Redelivery, Failing and Authority are the theorems.
-- - Queue: worker/protocol.py, the entry of the stream that carries a request to a worker.
-- - Worker: worker/worker.py. Dispatch is what a message leads to, by `advance` of Runner, and Teardown the
--   end of a cancelled assessment; Acks and Cancelling are the theorems.
-- - Events: services/events.py. Bus are the operations, Replay and Stream the theorems on subscribers.
-- - Assessment: services/assessment.py. Status and Stage are the enumerations and the transition
--   table, Service the record and its operations, Transition, Lifecycle and Stopping the theorems.
-- - Progress: services/progress.py, percentages and the checklist that is shown.
-- - Approval: services/approval.py, the human gate. Data is the row, Narrow `_narrow_payload`, Gate
--   the operations over the table, Scope, Once and Final the theorems on them. An expiry moves the
--   assessment by `transition`; what a resolution grants is what the scanners read.
-- - Job: services/job.py. Slots are the counters that bound how many scans run at once, and Admission
--   lets several workers interleave; Data and Life are the rows of the jobs and their operations, and
--   Terminal and Cancel the theorems on them.
-- - Finding: services/finding.py, the score, the priority and the status of a finding.
-- - Correlation: services/correlation.py. Groups are the fingerprints and the groups of duplicates, Merge what
--   a model adds; Classes and Grounded are the theorems.
-- - Guard: llm/guard.py. Claims are the checks on what a model says, Sourced
--   the theorems.
-- - Ssvc: services/ssvc.py, the action that a finding calls for.
-- - Circuit: integrations/circuit.py, the circuit breaker over three Redis keys.
-- - Tests: the code at concrete inputs, and the theorems at inputs that meet their hypotheses.
--
-- State is passed explicitly. A table is the list of its rows; a statement of SQL or a Redis
-- pipeline is one atomic step; a coroutine that reads and then writes takes the table that it saw
-- and the table as it is by then. The identifier of a new row and the time are arguments, in whole
-- seconds, in Auth, Runner, Worker and Events in milliseconds. An error is a value, without its message. Floats are whole
-- numbers of their last decimal, and the rounding of the EPSS component is a parameter that gives a nearest number. The
-- `uuid` module is a parameter (`Uuid`) of which only is used that it reads back what it prints; so are
-- Python's `json` in Queue, the JSON of an event in Events, the graph library with its nodes in Runner,
-- `ipaddress`, `re` and `urllib` in Targets, and the hashing and the signing libraries in Auth,
-- the digest and the answer of the model in Correlation, and the patterns of `re` in Guard.
-- Case and white space are those of ASCII. Loops are recursions on lists. Fuel is used for
-- the decimal digits of a number, where the number itself is enough since each step divides. The transitions of an
-- assessment and the requests on the members of an organization are taken one after the other: the code has no lock
-- there, and sessions that overlap are left to the findings.
--
-- Not modelled: web framework, database driver, message broker, containers, model providers and
-- remote services, which are input and output or third-party code; the other
-- nodes of the agent, the import of findings, the attack paths, and the frontend.
pub mod Base
pub mod Identity
pub mod Repository
pub mod Audit
pub mod Redis
pub mod Auth
pub mod Assessment
pub mod Progress
pub mod Approval
pub mod Organization
pub mod Targets
pub mod Job
pub mod Prompt
pub mod Agent
pub mod Finding
pub mod Ssvc
pub mod Circuit
pub mod Runner
pub mod Queue
pub mod Worker
pub mod Events
pub mod Correlation
pub mod Guard
pub mod Tests
