-- ===== src/Tests/Members.antt =====
-- backend/app/services/organization.py on two organizations.
use mathlib.Core.List.{Memᴰ}
use cyber.Base.{ℕ, ◌≡◌, ◌≤◌, refl, ◌⊎◌, true, none, some, List, [], ◌∷◌, arith}
use cyber.Base.Errors.{conflict, ok, err}
use cyber.Identity.{
  Role, owner, admin, developer, rank, Principal, ActorType, require, has_all, missing, role_has,
  permissions,
}
use cyber.Audit
use cyber.Audit.{AuditEvent, record_event}
use cyber.Auth.Data.{Membership}
use cyber.Organization.Members.{
  is_owner, owner_count, assert_can_grant, is_member_row, get_membership, set_role, is_self,
  change_role_of, change_member_role, remove_row, remove_member,
}
use cyber.Organization.Owners.{role_changed, none_yet, and_then, Changes-owner}
use cyber.Organization.Escalation.{Change-bounded}

abbrev member : ℕ → ℕ → ℕ → Role → Membership
member id org user role = record {
  id = id;
  organization_id = org;
  user_id = user;
  role = role;
  is_default = true;
  created_at = 1;
  invited_by_id = none;
  accepted_at = some 1;
}

abbrev team : List Membership
team = member 1 7 3 owner ∷ member 2 7 4 owner ∷ member 3 7 5 admin ∷ member 4 8 6 owner ∷ []

abbrev as_user : ℕ → Role → Principal
as_user id role = record {
  user_id = some id;
  organization_id = 7;
  role = role;
  email = none;
  actor_type = ActorType.user;
  source_ip = none;
  user_agent = none;
  request_id = none;
  trace_id = none;
}

abbrev smaller : List Membership
smaller = member 1 7 3 owner ∷ member 2 7 4 developer ∷ member 3 7 5 admin ∷ member 4 8 6 owner ∷ []

abbrev demotion : AuditEvent
demotion =
    record_event 10 Audit.member_role_change (some (as_user 5 admin)) none (some 2) Audit.success

-- An admin makes one of two owners a developer.
demotes :
    change_member_role 10 (as_user 5 admin) 2 developer team team ≡ ok (smaller, some demotion)
unfolding change_member_role require has_all missing role_has permissions assert_can_grant rank
    get_membership is_member_row change_role_of is_self is_owner owner_count set_role
demotes = refl

-- The other owner cannot leave then.
last_owner_stays : remove_member 11 (as_user 3 owner) 1 smaller smaller ≡ err conflict
unfolding remove_member remove_row require has_all missing role_has permissions get_membership
    is_member_row is_owner owner_count
last_owner_stays = refl

-- Two owners who demote each other at the same time, each having counted two, leave none.
both_demoted :
    (change_member_role 10 (as_user 3 owner) 2 developer team team
      ≡ ok (
        set_role 7 2 developer team,
        some (
            record_event 10 Audit.member_role_change
              (some (as_user 3 owner))
              none
              (some 2)
              Audit.success),
      ))
    × (owner_count 7 (set_role 7 1 developer (set_role 7 2 developer team)) ≡ 0)
unfolding change_member_role require has_all missing role_has permissions assert_can_grant rank
    get_membership is_member_row change_role_of is_self is_owner owner_count set_role
both_demoted = (refl, refl)

two_owners : owner_count 7 team ≡ 2
unfolding owner_count is_owner
two_owners = refl

Changes-owner_example : 1 ≤ owner_count 7 smaller
Changes-owner_example =
    Changes-owner 7
      (and_then (as_user 5 admin) none_yet (role_changed 10 2 developer (some demotion) demotes))
      (omega (arith, two_owners))

Change-bounded_example : Memᴰ (member 2 7 4 developer) team ⊎ (rank developer ≤ rank admin)
Change-bounded_example =
    Change-bounded (as_user 5 admin) (role_changed 10 2 developer (some demotion) demotes)
      (member 2 7 4 developer) (Memᴰ.tail (Memᴰ.head refl))
