-- ===== src/Organization/Owners.antt =====
-- An organization keeps an owner, and nobody hands out more authority than they have.
use cyber.Base.{
  ℕ, ◌+◌, ◌≤◌, ◌≡◌, sym, ap, false, ◌&&◌, ◌==◌, leb, ==_iff, Bool-cases, inl, inr, ◌⊎◌, arith,
  if◌then◌else◌, Option, none, List, [], ◌∷◌, ◌++◌, is_some,
}
use cyber.Base.Errors.{ok, >>=-ok, refuse-ok, either-ok, ok_inj}
use cyber.Identity.{Role, rank, Principal, member_manage, require}
use cyber.Audit.{AuditEvent}
use cyber.Auth.Data.{Membership, resolve_membership}
use cyber.Organization.Members.{
  is_owner, owner_count, assert_can_grant, is_member_row, get_membership, set_role, delete_member,
  is_self, change_role_of, change_member_role, remove_row, remove_member, invited_member,
  invite_member,
}

-- How much a row counts for an organization's owners.
abbrev weight : ℕ → ℕ → Role → ℕ
weight o organization_id role = if organization_id == o && is_owner role then 1 else 0

owner_count-set_role :
    (o organization_id id : ℕ) (role : Role) (table : List Membership) (m : Membership)
    → get_membership organization_id id table ≡ ok m
    → owner_count o (set_role organization_id id role table) + weight o organization_id m.role
      ≡ owner_count o table + weight o organization_id role
unfolding owner_count set_role get_membership is_member_row
owner_count-set_role o organization_id id role [] m h = cc
owner_count-set_role o organization_id id role (x ∷ table) m h =
    ground (arith, h, owner_count-set_role o organization_id id role table m)

owner_count-delete_member :
    (o organization_id id : ℕ) (table : List Membership) (m : Membership)
    → get_membership organization_id id table ≡ ok m
    → owner_count o (delete_member organization_id id table) + weight o organization_id m.role
      ≡ owner_count o table
unfolding owner_count delete_member get_membership is_member_row
owner_count-delete_member o organization_id id [] m h = cc
owner_count-delete_member o organization_id id (x ∷ table) m h =
    ground (arith, h, owner_count-delete_member o organization_id id table m)

owner_count-append :
    (o : ℕ) (table : List Membership) (m : Membership)
    → owner_count o table ≤ owner_count o (table ++ m ∷ [])
unfolding owner_count
owner_count-append o [] m = omega arith
owner_count-append o (x ∷ table) m = ground (arith, owner_count-append o table m)

can_grant_bound :
    (p : Principal) (role : Role) {u : Unit}
    → assert_can_grant p role ≡ ok u
    → rank role ≤ rank p.role
unfolding assert_can_grant
can_grant_bound p role h = ground (arith, h)

change_role_of-ok :
    (now : ℕ) (p : Principal) (id : ℕ) (role : Role) (table : List Membership) (m : Membership)
    → {table' : List Membership} {event : Option AuditEvent}
    → change_role_of now p id role table table m ≡ ok (table', event)
    → (table' ≡ table)
      ⊎ (((is_owner m.role && leb (owner_count p.organization_id table) 1) ≡ false)
          × (table' ≡ set_role p.organization_id id role table))
unfolding change_role_of
change_role_of-ok now p id role table m h =
    let (other, h1) = refuse-ok (is_self p m) _ _ h in
    elim (either-ok (rank m.role == rank role) (table, none) _ h1) [
      | inl same ↦ inl (sym (ap (λ x. x.0) same))
      | inr rest ↦
          let (spare, built) =
            refuse-ok (is_owner m.role && leb (owner_count p.organization_id table) 1) _ _ rest in
          inr (spare, sym (ap (λ x. x.0) (ok_inj built)))
    ]

-- Taking an owner away when it is not the last leaves one.
spare_owner :
    (count : ℕ → ℕ) (o organization_id after more : ℕ) (role : Role)
    → (is_owner role && leb (count organization_id) 1) ≡ false
    → after + weight o organization_id role ≡ count o + more
    → 1 ≤ count o
    → 1 ≤ after
spare_owner count o organization_id after more role spare gone one =
    elim (Bool-cases (organization_id == o)) [
      | inl same ↦
          let here : count organization_id ≡ count o =
            ap count ((==_iff organization_id o).0 same) in
          ground (arith, spare, gone, one, here, same)
      | inr differ ↦ ground (arith, gone, one, differ)
    ]

-- What the members of all organizations do: one request after the other, each on the table that the one
-- before left.
pub data Change (p : Principal) (table table' : List Membership) : Type 0 where
  role_changed :
      (now id : ℕ) (role : Role) (event : Option AuditEvent)
      → change_member_role now p id role table table ≡ ok (table', event)
      → Change p table table'
  removed :
      (now id : ℕ) (event : Option AuditEvent)
      → remove_member now p id table table ≡ ok (table', event)
      → Change p table table'
  invited :
      (now id user_id : ℕ) (role : Role) (event : Option AuditEvent)
      → invite_member now id p user_id role table ≡ ok (table', event)
      → Change p table table'

pub data Changes : List Membership → List Membership → Type 0 where
  none_yet : {table : List Membership} → Changes table table
  and_then :
      {table table' table'' : List Membership} (p : Principal)
      → Changes table table'
      → Change p table' table''
      → Changes table table''

-- What a change of a role wrote.
pub change_member_role-ok :
    (now : ℕ) (p : Principal) (id : ℕ) (role : Role) (table : List Membership)
    → {table' : List Membership} {event : Option AuditEvent}
    → change_member_role now p id role table table ≡ ok (table', event)
    → (rank role ≤ rank p.role)
      × ((m : Membership) × (get_membership p.organization_id id table ≡ ok m)
          × ((table' ≡ table)
              ⊎ (((is_owner m.role && leb (owner_count p.organization_id table) 1) ≡ false)
                  × (table' ≡ set_role p.organization_id id role table))))
unfolding change_member_role
change_member_role-ok now p id role table h =
    let (_, allowed, h1) = >>=-ok (require p (member_manage ∷ [])) _ h in
    let (_, granted, h2) = >>=-ok (assert_can_grant p role) _ h1 in
    let (m, found, h3) = >>=-ok (get_membership p.organization_id id table) _ h2 in
    (can_grant_bound p role granted, (m, found, change_role_of-ok now p id role table m h3))

-- What a removal wrote.
pub remove_member-ok :
    (now : ℕ) (p : Principal) (id : ℕ) (table : List Membership)
    → {table' : List Membership} {event : Option AuditEvent}
    → remove_member now p id table table ≡ ok (table', event)
    → (m : Membership) × (get_membership p.organization_id id table ≡ ok m)
      × ((is_owner m.role && leb (owner_count p.organization_id table) 1) ≡ false)
      × (table' ≡ delete_member p.organization_id id table)
unfolding remove_member remove_row
remove_member-ok now p id table h =
    let (_, allowed, h1) = >>=-ok (require p (member_manage ∷ [])) _ h in
    let (m, found, h2) = >>=-ok (get_membership p.organization_id id table) _ h1 in
    let (spare, built) =
      refuse-ok (is_owner m.role && leb (owner_count p.organization_id table) 1) _ _ h2 in
    (m, found, spare, sym (ap (λ x. x.0) (ok_inj built)))

-- What an invitation wrote.
pub invite_member-ok :
    (now id : ℕ) (p : Principal) (user_id : ℕ) (role : Role) (table : List Membership)
    → {table' : List Membership} {event : Option AuditEvent}
    → invite_member now id p user_id role table ≡ ok (table', event)
    → (rank role ≤ rank p.role)
      × (table' ≡ table ++ invited_member now id p user_id role table ∷ [])
unfolding invite_member
invite_member-ok now id p user_id role table h =
    let (_, allowed, h1) = >>=-ok (require p (member_manage ∷ [])) _ h in
    let (_, granted, h2) = >>=-ok (assert_can_grant p role) _ h1 in
    let (fresh, built) =
      refuse-ok (is_some (resolve_membership user_id p.organization_id table)) _ _ h2 in
    (can_grant_bound p role granted, sym (ap (λ x. x.0) (ok_inj built)))

owner_count-Change :
    (o : ℕ) (p : Principal) {table table' : List Membership}
    → Change p table table'
    → 1 ≤ owner_count o table
    → 1 ≤ owner_count o table'
owner_count-Change o p {table} (role_changed now id role event h) one =
    let (_, (m, found, outcome)) = change_member_role-ok now p id role table h in
    elim outcome [
      | inl same ↦ rw same one
      | inr (spare, wrote) ↦ rw wrote (
          spare_owner (λ k. owner_count k table) o p.organization_id
            (owner_count o (set_role p.organization_id id role table))
            (weight o p.organization_id role) m.role spare
            (owner_count-set_role o p.organization_id id role table m found) one)
    ]
owner_count-Change o p {table} (removed now id event h) one =
    let (m, found, spare, wrote) = remove_member-ok now p id table h in
    rw wrote (
      spare_owner (λ k. owner_count k table) o p.organization_id
        (owner_count o (delete_member p.organization_id id table)) 0 m.role spare
        (omega (arith, owner_count-delete_member o p.organization_id id table m found)) one)
owner_count-Change o p {table} (invited now id user_id role event h) one =
    let (_, wrote) = invite_member-ok now id p user_id role table h in
    rw wrote
      (omega (arith, one, owner_count-append o table (invited_member now id p user_id role table)))

-- However the members of any organizations are invited, given other roles and removed, one request after
-- the other, an organization that had an owner has one.
pub Changes-owner :
    (o : ℕ) {table table' : List Membership}
    → Changes table table'
    → 1 ≤ owner_count o table
    → 1 ≤ owner_count o table'
Changes-owner o none_yet one = one
Changes-owner o (and_then p before step) one =
    owner_count-Change o p step (Changes-owner o before one)
