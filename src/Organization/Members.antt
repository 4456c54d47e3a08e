-- ===== src/Organization/Members.antt =====
-- `invite_member`, `change_member_role`, `remove_member`, and the owner that an organization begins with.
-- A row is found by its primary key, so the first row that has it is the only one.
use cyber.Base.{
  ℕ, Bool, true, false, not, ◌&&◌, ◌==◌, ltb, leb, if◌then◌else◌, Option, none, some, List, [], ◌∷◌,
  ◌++◌, keep, length, is_some,
}
use cyber.Base.Errors.{permission_denied, not_found, conflict, Result, ok, err, ◌>>=◌, ◌>>◌}
use cyber.Identity.{Role, owner, rank, Principal, member_manage, require}
use cyber.Repository.{head_of}
use cyber.Audit
use cyber.Audit.{AuditEvent, record_event}
use cyber.Auth.Data.{Membership, resolve_membership}

-- `role == Role.OWNER`
unfoldable pub is_owner : Role → Bool
is_owner owner = true
is_owner _ = false

-- `_owner_count`
unfoldable pub owner_count : (organization_id : ℕ) → List Membership → ℕ
owner_count organization_id table =
    length (keep (λ m. m.organization_id == organization_id && is_owner m.role) table)

-- `_has_any_membership`
unfoldable pub has_any_membership : (user_id : ℕ) → List Membership → Bool
has_any_membership user_id table = ltb 0 (length (keep (λ m. m.user_id == user_id) table))

-- `_assert_can_grant`
unfoldable pub assert_can_grant : Principal → Role → Result (Unit {0})
assert_can_grant p role = if ltb (rank p.role) (rank role) then err permission_denied else ok tt

-- `Membership.id == membership_id` in the caller's organization
unfoldable pub is_member_row : (organization_id id : ℕ) → Membership → Bool
is_member_row organization_id id m = m.id == id && m.organization_id == organization_id

-- `_get_membership`
unfoldable pub get_membership : (organization_id id : ℕ) → List Membership → Result Membership
get_membership organization_id id table =
    elim (head_of (keep (is_member_row organization_id id) table)) [
      | none ↦ err not_found
      | some m ↦ ok m
    ]

-- `membership.role = role.value`, on the row of the key.
unfoldable pub set_role : (organization_id id : ℕ) → Role → List Membership → List Membership
set_role organization_id id role [] = []
set_role organization_id id role (m ∷ table) =
    let rest = set_role organization_id id role table in
    if is_member_row organization_id id m then record m { role = role } ∷ table else m ∷ rest

-- `session.delete(membership)`
unfoldable pub delete_member : (organization_id id : ℕ) → List Membership → List Membership
delete_member organization_id id [] = []
delete_member organization_id id (m ∷ table) =
    let rest = delete_member organization_id id table in
    if is_member_row organization_id id m then table else m ∷ rest

-- `membership.user_id == principal.user_id`
unfoldable pub is_self : Principal → Membership → Bool
is_self p m = elim p.user_id [ none ↦ false | some id ↦ m.user_id == id ]

-- `change_member_role`, from the row: the table and the audit row.
unfoldable pub change_role_of :
    (now : ℕ)
    → Principal
    → (id : ℕ) → Role
    → (seen table : List Membership) → Membership
    → Result (List Membership × Option AuditEvent)
change_role_of now p id role seen table m =
    if is_self p m
    then err permission_denied
    else if rank m.role == rank role
    then ok (table, none)
    else if is_owner m.role && leb (owner_count p.organization_id seen) 1
    then err conflict
    else ok (
      set_role p.organization_id id role table,
      some (record_event now Audit.member_role_change (some p) none (some id) Audit.success),
    )

-- `change_member_role`; the rows that it saw, and the table that it writes to.
unfoldable pub change_member_role :
    (now : ℕ)
    → Principal
    → (id : ℕ) → Role
    → (seen table : List Membership) → Result (List Membership × Option AuditEvent)
change_member_role now p id role seen table =
    require p (member_manage ∷ [])
    >> (assert_can_grant p role
        >> (get_membership p.organization_id id seen >>= change_role_of now p id role seen table))

-- `remove_member`, from the row.
unfoldable pub remove_row :
    (now : ℕ)
    → Principal
    → (id : ℕ) → (seen table : List Membership) → Membership
    → Result (List Membership × Option AuditEvent)
remove_row now p id seen table m =
    if is_owner m.role && leb (owner_count p.organization_id seen) 1
    then err conflict
    else ok (
      delete_member p.organization_id id table,
      some (record_event now Audit.member_remove (some p) none (some id) Audit.success),
    )

-- `remove_member`
unfoldable pub remove_member :
    (now : ℕ)
    → Principal
    → (id : ℕ) → (seen table : List Membership) → Result (List Membership × Option AuditEvent)
remove_member now p id seen table =
    require p (member_manage ∷ [])
    >> (get_membership p.organization_id id seen >>= remove_row now p id seen table)

-- The row that `invite_member` adds.
unfoldable pub invited_member :
    (now id : ℕ) → Principal → (user_id : ℕ) → Role → List Membership → Membership
invited_member now id p user_id role table = record {
  id = id;
  organization_id = p.organization_id;
  user_id = user_id;
  role = role;
  is_default = not (has_any_membership user_id table);
  created_at = now;
  invited_by_id = p.user_id;
  accepted_at = none;
}

-- `invite_member`, once the user is found or created.
unfoldable pub invite_member :
    (now id : ℕ)
    → Principal
    → (user_id : ℕ) → Role
    → List Membership
    → Result (List Membership × Option AuditEvent)
invite_member now id p user_id role table =
    require p (member_manage ∷ [])
    >> (assert_can_grant p role
        >> (if is_some (resolve_membership user_id p.organization_id table)
            then err conflict
            else ok (
              table ++ invited_member now id p user_id role table ∷ [],
              some (record_event now Audit.member_invite (some p) none (some id) Audit.success),
            )))

-- The membership of `create_organization`
unfoldable pub first_owner : (now id organization_id user_id : ℕ) → List Membership → Membership
first_owner now id organization_id user_id table = record {
  id = id;
  organization_id = organization_id;
  user_id = user_id;
  role = owner;
  is_default = not (has_any_membership user_id table);
  created_at = now;
  invited_by_id = none;
  accepted_at = some now;
}
