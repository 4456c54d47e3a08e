-- ===== src/Tests/Identities.antt =====
-- backend/app/services/context.py at concrete principals.
use cyber.Base.{◌≡◌, refl, true, none, some, [], ◌∷◌, Within}
use cyber.Base.Errors.{permission_denied, err}
use cyber.Identity.{
  security_engineer, permission_eq, permissions, assessment_approve, org_manage, role_has,
  ActorType, Principal, require, for_agent,
}
use cyber.Identity.Grants.{for_agent-Within, IsMember, authority}

abbrev pub engineer : Principal
engineer = record {
  user_id = some 3;
  organization_id = 7;
  role = security_engineer;
  email = some "ada@example.com";
  actor_type = ActorType.user;
  source_ip = some "203.0.113.9";
  user_agent = none;
  request_id = none;
  trace_id = none;
}

-- A security engineer approves scans, a developer does not, and an administrator cannot manage the
-- organization itself.
approvals :
    (role_has security_engineer assessment_approve ≡ true)
    × (require engineer (org_manage ∷ []) ≡ err permission_denied)
unfolding role_has permissions require
approvals = (refl, refl)

abbrev running : Principal
running = record engineer { actor_type = ActorType.agent; source_ip = none }

for_agent-Within_example :
    (running.organization_id ≡ 7)
    × (running.actor_type ≡ ActorType.agent)
    × IsMember 7 (some engineer)
    × Within (permissions running.role) (authority (some engineer))
for_agent-Within_example =
    for_agent-Within 7 (some engineer) {q = running} (unfold for_agent in refl)
