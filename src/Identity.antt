-- ===== src/Identity.antt =====
-- backend/app/db/enums.py and backend/app/services/context.py: roles, permissions, and the
-- principal under which an operation runs.
pub mod Grants
pub mod State
use cyber.Base.{
  ℕ, ◌≡◌, refl, get_elem?, Bool, true, false, not, Option, none, some, List, [], ◌∷◌, ◌++◌,
  Comparable, eq_by, contains, is_subset, keep, ltb, ◌==◌, if◌then◌else◌,
}
use Prim.Native.String.{String}
use cyber.Base.Errors.{permission_denied, Result, ok, err}

pub data Role : Type 0 where
  owner admin security_engineer developer viewer : Role

-- `_ROLE_RANK`
unfoldable pub rank : Role → ℕ
rank viewer = 0
rank developer = 1
rank security_engineer = 2
rank admin = 3
rank owner = 4

pub data Permission : Type 0 where
  org_read org_manage member_manage integration_read integration_manage assessment_read
        assessment_create assessment_approve assessment_cancel asset_read asset_tag finding_read
        finding_analyze finding_validate finding_remediate ticket_create report_read report_generate
        audit_read agent_chat :
      Permission

-- The place of a permission in the enumeration.
abbrev pub permission_code : Permission → ℕ
permission_code org_read = 0
permission_code org_manage = 1
permission_code member_manage = 2
permission_code integration_read = 3
permission_code integration_manage = 4
permission_code assessment_read = 5
permission_code assessment_create = 6
permission_code assessment_approve = 7
permission_code assessment_cancel = 8
permission_code asset_read = 9
permission_code asset_tag = 10
permission_code finding_read = 11
permission_code finding_analyze = 12
permission_code finding_validate = 13
permission_code finding_remediate = 14
permission_code ticket_create = 15
permission_code report_read = 16
permission_code report_generate = 17
permission_code audit_read = 18
permission_code agent_chat = 19

-- `set(Permission)`
abbrev pub all_permissions : List Permission
all_permissions =
    org_read ∷ org_manage ∷ member_manage ∷ integration_read ∷ integration_manage ∷ assessment_read
    ∷ assessment_create ∷ assessment_approve ∷ assessment_cancel ∷ asset_read ∷ asset_tag
    ∷ finding_read ∷ finding_analyze ∷ finding_validate ∷ finding_remediate ∷ ticket_create
    ∷ report_read ∷ report_generate ∷ audit_read ∷ agent_chat ∷ []

pub get_elem?-permission_code :
    (p : Permission) → get_elem? all_permissions (permission_code p) ≡ some p
get_elem?-permission_code org_read = refl
get_elem?-permission_code _ = refl

instance abbrev pub permission_eq : Comparable Permission
permission_eq = eq_by all_permissions permission_code get_elem?-permission_code

-- `_READ_ONLY`
abbrev pub read_only : List Permission
read_only = org_read ∷ assessment_read ∷ asset_read ∷ finding_read ∷ report_read ∷ []

-- `PERMISSIONS`
unfoldable pub permissions : Role → List Permission
permissions viewer = read_only
permissions developer =
    read_only ++ agent_chat ∷ finding_remediate ∷ ticket_create ∷ integration_read ∷ []
permissions security_engineer =
    read_only
    ++ agent_chat ∷ assessment_create ∷ assessment_approve ∷ assessment_cancel ∷ asset_tag
      ∷ finding_analyze ∷ finding_validate ∷ finding_remediate ∷ ticket_create ∷ report_generate
      ∷ integration_read ∷ audit_read ∷ []
permissions admin = keep (λ p. not (contains p (org_manage ∷ []))) all_permissions
permissions owner = all_permissions

unfoldable pub role_has : Role → Permission → Bool
role_has role permission = contains permission (permissions role)

pub data ActorType : Type 0 where
  user agent worker system : ActorType

-- Identifiers are numbers: they are only compared.
pub record Principal : Type 0 where
  pub user_id : Option ℕ
  pub organization_id : ℕ
  pub role : Role
  pub email : Option String
  pub actor_type : ActorType
  pub source_ip : Option String
  pub user_agent : Option String
  pub request_id : Option String
  pub trace_id : Option String

-- `Principal.has`
pub has : Principal → Permission → Bool
has p permission = contains permission (permissions p.role)

-- `Principal.has_all`
unfoldable pub has_all : Principal → List Permission → Bool
has_all p wanted = is_subset wanted (permissions p.role)

-- The permissions asked for that are not held.
unfoldable pub missing : Principal → List Permission → List Permission
missing p wanted = keep (λ q. not (contains q (permissions p.role))) wanted

-- `Principal.require`
unfoldable pub require : Principal → List Permission → Result (Unit {0})
unfolding missing
require p wanted = elim (missing p wanted) [ [] ↦ ok tt | _ ∷ _ ↦ err permission_denied ]

-- `Principal.for_agent`
unfoldable pub for_agent : ℕ → Option Principal → Result Principal
for_agent organization_id none = ok (record {
  user_id = none;
  organization_id = organization_id;
  role = viewer;
  email = none;
  actor_type = agent;
  source_ip = none;
  user_agent = none;
  request_id = none;
  trace_id = none;
})
for_agent organization_id (some p) =
    if not (p.organization_id == organization_id)
    then err permission_denied
    else ok (record {
      user_id = p.user_id;
      organization_id = organization_id;
      role = p.role;
      email = p.email;
      actor_type = agent;
      source_ip = none;
      user_agent = none;
      request_id = p.request_id;
      trace_id = p.trace_id;
    })

-- `Principal.downgraded_to`
unfoldable pub downgraded_to : Principal → Role → Result Principal
unfolding rank
downgraded_to p role =
    if ltb (rank p.role) (rank role) then err permission_denied else ok (record p { role = role })
