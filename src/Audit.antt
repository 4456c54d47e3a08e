-- ===== src/Audit.antt =====
-- backend/app/services/audit.py: the rows that the services append to the audit trail. Free text,
-- the request's provenance and the detail mapping are not modelled.
use cyber.Base.{ℕ, Option, none, some}
use cyber.Identity.{ActorType, system, Principal}

pub data AuditOutcome : Type 0 where
  success failure denied : AuditOutcome

-- The actions that the modelled services record.
pub data AuditAction : Type 0 where
  assessment_degraded assessment_cancel approval_requested approval_granted approval_customized
        approval_rejected approval_expired scanner_enqueue scanner_start scanner_complete
        scanner_timeout scanner_cancel scanner_fail login login_failed login_locked token_refresh
        member_invite member_role_change member_remove :
      AuditAction

pub record AuditEvent : Type 0 where
  pub organization_id : Option ℕ
  pub actor_id : Option ℕ
  pub actor_type : ActorType
  pub action : AuditAction
  pub resource_id : Option ℕ
  pub outcome : AuditOutcome
  pub created_at : ℕ

abbrev or_else : Option ℕ → Option ℕ → Option ℕ
or_else (some a) b = some a
or_else none b = b

-- `record`: the organization given wins over the principal's.
unfoldable pub record_event :
    (now : ℕ) (action : AuditAction) (principal : Option Principal)
    (organization_id resource_id : Option ℕ)
    → AuditOutcome
    → AuditEvent
record_event now action none organization_id resource_id outcome = record {
  organization_id = organization_id;
  actor_id = none;
  actor_type = system;
  action = action;
  resource_id = resource_id;
  outcome = outcome;
  created_at = now;
}
record_event now action (some p) organization_id resource_id outcome = record {
  organization_id = or_else organization_id (some p.organization_id);
  actor_id = p.user_id;
  actor_type = p.actor_type;
  action = action;
  resource_id = resource_id;
  outcome = outcome;
  created_at = now;
}
