-- ===== src/Approval/Gate.antt =====
-- `pending_approval`, `open_approval`, `resolve_approval`, `granted_approval`, `expire_stale`, over
-- the table of approvals. A time is a number; an id that the database makes for a new row is an
-- argument.
use cyber.Base.{
  ℕ, suc, zero, ◌+◌, ◌*◌, ◌≡◌, refl, Bool, true, false, not, ◌&&◌, ◌||◌, Option, none, some, List,
  [], ◌∷◌, ◌++◌, arith, map, length, nat_eq, contains, keep, is_some, leb, ltb, ◌==◌, if◌then◌else◌,
  min,
}
use cyber.Base.Errors.{user_error, conflict, Result, ok, err, ◌>>=◌, ◌>>◌}
use cyber.Identity.{Principal, assessment_approve, require}
use cyber.Repository.{get_or_404}
use cyber.Repository.Update.{update_rows}
use cyber.Audit
use cyber.Audit.{AuditEvent, AuditAction, AuditOutcome, record_event}
use cyber.Assessment.Status.{is_terminal, failed}
use cyber.Assessment.Service.{Assessment, transition}
use cyber.Approval.Data.{
  pending, expired, ApprovalKind, kind_eq, RiskLevel, forbidden, Uuid, Payload, no_payload,
  Approval, approval_tenanted, Answer, approved, approved_all, customized, rejected, ApproveIn,
  decision_of, is_granting, is_pending,
}
use cyber.Approval.Narrow.{narrow_payload}

-- The one of two rows that `ORDER BY time DESC, id DESC` puts first.
unfoldable pub later : (Approval → ℕ) → Approval → Approval → Approval
later time a b = if ltb (time b) (time a) || (time b == time a && leb b.id a.id) then a else b

-- The row that `ORDER BY time DESC, id DESC LIMIT 1` gives.
unfoldable pub latest : (Approval → ℕ) → List Approval → Option Approval
unfolding later
latest time [] = none
latest time (a ∷ rows) = elim (latest time rows) [ none ↦ some a | some b ↦ some (later time a b) ]

-- The rows that `pending_approval` looks at.
unfoldable pub is_open : ℕ → ApprovalKind → Approval → Bool
unfolding is_pending
is_open assessment_id kind a =
    a.assessment_id == assessment_id && is_pending a.decision && kind_eq.equals a.kind kind

-- `pending_approval`, with a kind
unfoldable pub pending_approval : ℕ → ApprovalKind → List Approval → Option Approval
unfolding is_open latest
pending_approval assessment_id kind table =
    latest (λ a. a.created_at) (keep (is_open assessment_id kind) table)

-- `_expiry`: no settings, no deadline; the organization's policy may shorten the window.
unfoldable pub expiry : ℕ → (ttl_hours policy_hours : Option ℕ) → Option ℕ
expiry now none policy_hours = none
expiry now (some hours) none = some (now + hours * 3600)
expiry now (some hours) (some override) = some (now + min hours override * 3600)

-- The arguments of `open_approval` that only travel into the row.
pub record OpenIn : Type 0 where
  pub kind : ApprovalKind
  pub requested_payload : Payload
  pub risk_level : RiskLevel
  pub ttl_hours : Option ℕ
  pub policy_hours : Option ℕ

-- `risk_level is RiskLevel.FORBIDDEN`
abbrev pub is_forbidden : RiskLevel → Bool
is_forbidden forbidden = true
is_forbidden _ = false

-- The row that `open_approval` inserts.
unfoldable pub new_approval : (now id : ℕ) → Assessment → OpenIn → Approval
unfolding expiry
new_approval now id assessment input = record {
  id = id;
  organization_id = assessment.organization_id;
  assessment_id = assessment.id;
  kind = input.kind;
  decision = pending;
  requested_payload = input.requested_payload;
  approved_payload = no_payload;
  risk_level = input.risk_level;
  created_at = now;
  expires_at = expiry now input.ttl_hours input.policy_hours;
  resolved_at = none;
  resolved_by_id = none;
  resolution_note = none;
}

-- `open_approval`: the approval, the table, and the audit rows. It looks for a pending row in the table as it
-- was, and inserts into the table as it is by then: there is no lock and no unique index between.
unfoldable pub open_approval :
    (now id : ℕ)
    → Assessment
    → OpenIn
    → (seen table : List Approval) → Result (Approval × List Approval × List AuditEvent)
open_approval now id assessment input seen table =
    if is_forbidden input.risk_level
    then err user_error
    else elim (pending_approval assessment.id input.kind seen) [
      | some existing ↦ ok (existing, table, [])
      | none ↦
          let approval = new_approval now id assessment input in
          ok (
            approval,
            table ++ approval ∷ [],
            record_event now Audit.approval_requested none (some assessment.organization_id)
                  (some id) Audit.success
                ∷ [],
          )
    ]

-- `_is_expired`
unfoldable pub is_expired : ℕ → Approval → Bool
is_expired now a = elim a.expires_at [ none ↦ false | some deadline ↦ leb deadline now ]

-- `_DECISION_ACTIONS`
unfoldable pub decision_action : Answer → AuditAction
decision_action approved = Audit.approval_granted
decision_action approved_all = Audit.approval_granted
decision_action customized = Audit.approval_customized
decision_action rejected = Audit.approval_rejected

unfoldable pub decision_outcome : Answer → AuditOutcome
decision_outcome rejected = Audit.denied
decision_outcome _ = Audit.success

-- The condition of the conditional UPDATE of `resolve_approval`.
unfoldable pub matches : ℕ → ℕ → Approval → Bool
unfolding is_pending
matches org id a = a.id == id && a.organization_id == org && is_pending a.decision

module _ (u : Uuid) where
  -- `_narrow_payload(...) if decision in _GRANTING_DECISIONS else {}`
  unfoldable pub granted_payload : Approval → ApproveIn → Result Payload
  granted_payload a input =
      if is_granting (decision_of input.decision) then narrow_payload u a input else ok no_payload

  -- The values that the UPDATE writes.
  unfoldable pub resolve_row : ℕ → Principal → ApproveIn → Payload → Approval → Approval
  resolve_row now p input granted a = record a {
    decision = decision_of input.decision;
    approved_payload = granted;
    resolved_at = some now;
    resolved_by_id = p.user_id;
    resolution_note = input.note;
  }

  -- The conditional UPDATE of `resolve_approval`, its row count, and the audit row.
  unfoldable pub write_decision :
      (now : ℕ)
      → Principal
      → (id : ℕ) → ApproveIn
      → (table : List Approval) → Payload
      → Result (List Approval × AuditEvent)
  write_decision now p id input table granted =
      let (table', count) =
        update_rows (matches p.organization_id id) (resolve_row now p input granted) table in
      if count == 1
      then ok (
        table',
        record_event now (decision_action input.decision) (some p) none (some id)
            (decision_outcome input.decision),
      )
      else err conflict

  -- `resolve_approval`, from the row that it read: the two checks, the payload, and the write.
  unfoldable pub answer_row :
      (now : ℕ)
      → Principal
      → (id : ℕ) → ApproveIn
      → (table : List Approval) → Approval
      → Result (List Approval × AuditEvent)
  answer_row now p id input table a =
      if not (is_pending a.decision)
      then err conflict
      else if is_expired now a
      then err conflict
      else (granted_payload a input >>= write_decision now p id input table)

  -- `resolve_approval`. It reads the row from the table as it was, and writes to the table as it
  -- is by then; an error leaves the transaction to be rolled back.
  unfoldable pub resolve_approval :
      (now : ℕ)
      → Principal
      → (id : ℕ) → ApproveIn
      → (seen table : List Approval) → Result (List Approval × AuditEvent)
  resolve_approval now p id input seen table =
      require p (assessment_approve ∷ [])
      >> (get_or_404 p.organization_id id seen >>= answer_row now p id input table)

-- The rows that `granted_approval` looks at; it takes the one resolved last.
unfoldable pub is_grant : ℕ → ApprovalKind → Approval → Bool
is_grant assessment_id kind a =
    a.assessment_id == assessment_id
    && kind_eq.equals a.kind kind
    && is_granting a.decision
    && is_some a.resolved_by_id

-- `granted_approval`; a row that someone resolved has a time.
unfoldable pub granted_approval : ℕ → ApprovalKind → List Approval → Option Approval
unfolding is_grant latest
granted_approval assessment_id kind table =
    latest (λ a. elim a.resolved_at [ none ↦ 0 | some t ↦ t ])
      (keep (is_grant assessment_id kind) table)

-- The rows that `expire_stale` takes.
unfoldable pub is_stale : ℕ → Approval → Bool
unfolding is_pending is_expired
is_stale now a = is_pending a.decision && is_expired now a

-- What `expire_stale` writes to a row.
unfoldable pub expire_row : ℕ → Approval → Approval
expire_row now a = record a { decision = expired; resolved_at = some now }

-- Whether `expire_stale` read a row as stale; the row is then written by its key.
unfoldable pub is_swept : ℕ → (seen : List Approval) → Approval → Bool
unfolding is_stale
is_swept now seen a = contains a.id (map (λ r. r.id) (keep (is_stale now) seen))

-- `expire_stale`, on the approvals: the table and how many were expired. It reads the stale rows from the
-- table as it was, and writes them to the table as it is by then, without the condition that they are still
-- pending.
unfoldable pub expire_stale : ℕ → (seen table : List Approval) → List Approval × ℕ
unfolding update_rows is_swept is_stale
expire_stale now seen table =
    ((update_rows (is_swept now seen) (expire_row now) table).0, length (keep (is_stale now) seen))

-- `expire_stale`, on the assessment of a row that has expired.
unfoldable pub fail_expired : ℕ → Assessment → Result Assessment
fail_expired now a =
    if is_terminal a.status
    then ok a
    else transition now a failed none
        (some (cyber.Base.codes "The approval request expired before anyone responded."))
