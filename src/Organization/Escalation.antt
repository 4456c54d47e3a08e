-- ===== src/Organization/Escalation.antt =====
-- Nobody hands out more authority than they have.
use mathlib.Core.List.{Memᴰ}
use cyber.Base.{
  ℕ, ◌≤◌, ◌≡◌, ap, subst, Bool, true, false, inl, inr, ◌⊎◌, if◌then◌else◌, List, [], ◌∷◌, ◌++◌,
}
use cyber.Identity.{Role, rank, Principal}
use cyber.Auth.Data.{Membership}
use cyber.Organization.Members.{is_member_row, set_role, delete_member, invited_member}
use cyber.Organization.Owners.{
  change_member_role-ok, remove_member-ok, invite_member-ok, Change, role_changed, removed, invited,
}

-- Either head of two lists that share their tail.
Mem_either :
    (b : Bool) (x y : Membership) (xs ys : List Membership) {m : Membership}
    → Memᴰ m (if b then x ∷ xs else y ∷ ys)
    → (m ≡ x) ⊎ ((m ≡ y) ⊎ (Memᴰ m xs ⊎ Memᴰ m ys))
Mem_either true x y xs ys (Memᴰ.head e) = inl e
Mem_either true x y xs ys (Memᴰ.tail m) = inr (inr (inl m))
Mem_either false x y xs ys (Memᴰ.head e) = inr (inl e)
Mem_either false x y xs ys (Memᴰ.tail m) = inr (inr (inr m))

Mem-set_role :
    (organization_id id : ℕ) (role : Role) (table : List Membership) {m : Membership}
    → Memᴰ m (set_role organization_id id role table)
    → Memᴰ m table ⊎ (m.role ≡ role)
unfolding set_role
Mem-set_role organization_id id role [] m = elim m [ ]
Mem-set_role organization_id id role (x ∷ table) m =
    elim (Mem_either (is_member_row organization_id id x) (record x { role = role }) x table
      (set_role organization_id id role table) m) [
        | inl changed ↦ inr (ap (λ n. n.role) changed)
        | inr (inl same) ↦ inl (Memᴰ.head same)
        | inr (inr (inl rest)) ↦ inl (Memᴰ.tail rest)
        | inr (inr (inr rest)) ↦ elim (Mem-set_role organization_id id role table rest) [
          | inl old ↦ inl (Memᴰ.tail old)
          | inr set ↦ inr set
        ]
      ]

Mem_dropped :
    (b : Bool) (x : Membership) (xs ys : List Membership) {m : Membership}
    → Memᴰ m (if b then xs else x ∷ ys)
    → Memᴰ m xs ⊎ ((m ≡ x) ⊎ Memᴰ m ys)
Mem_dropped true x xs ys m = inl m
Mem_dropped false x xs ys (Memᴰ.head e) = inr (inl e)
Mem_dropped false x xs ys (Memᴰ.tail m) = inr (inr m)

Mem-delete_member :
    (organization_id id : ℕ) (table : List Membership) {m : Membership}
    → Memᴰ m (delete_member organization_id id table)
    → Memᴰ m table
unfolding delete_member
Mem-delete_member organization_id id [] m = elim m [ ]
Mem-delete_member organization_id id (x ∷ table) m =
    elim (Mem_dropped (is_member_row organization_id id x) x table
      (delete_member organization_id id table) m) [
        | inl rest ↦ Memᴰ.tail rest
        | inr (inl same) ↦ Memᴰ.head same
        | inr (inr rest) ↦ Memᴰ.tail (Mem-delete_member organization_id id table rest)
      ]

Mem-append :
    (table : List Membership) (x : Membership) {m : Membership}
    → Memᴰ m (table ++ x ∷ [])
    → Memᴰ m table ⊎ (m ≡ x)
Mem-append [] x (Memᴰ.head e) = inr e
Mem-append [] x (Memᴰ.tail m) = inl m
Mem-append (y ∷ table) x (Memᴰ.head e) = inl (Memᴰ.head e)
Mem-append (y ∷ table) x (Memᴰ.tail m) = elim (Mem-append table x m) [
  | inl old ↦ inl (Memᴰ.tail old)
  | inr new ↦ inr new
]

-- A membership that an invitation, a change of role or a removal leaves was there before, or its role is
-- not above the one of the member who made the request.
pub Change-bounded :
    (p : Principal) {table table' : List Membership}
    → Change p table table'
    → (m : Membership) → Memᴰ m table'
    → Memᴰ m table ⊎ (rank m.role ≤ rank p.role)
unfolding invited_member
Change-bounded p {table} {table'} (role_changed now id role event h) m member =
    let (bound, (row, found, outcome)) = change_member_role-ok now p id role table h in
    elim outcome [
      | inl same ↦ inl (subst (λ xs. Memᴰ m xs) same member)
      | inr (spare, wrote) ↦
          elim (Mem-set_role p.organization_id id role table
            (subst (λ xs. Memᴰ m xs) wrote member)) [
              | inl old ↦ inl old
              | inr set ↦ inr (rw set bound)
            ]
    ]
Change-bounded p {table} {table'} (removed now id event h) m member =
    let (row, found, spare, wrote) = remove_member-ok now p id table h in
    inl (Mem-delete_member p.organization_id id table (subst (λ xs. Memᴰ m xs) wrote member))
Change-bounded p {table} {table'} (invited now id user_id role event h) m member =
    let (bound, wrote) = invite_member-ok now id p user_id role table h in
    elim (Mem-append table (invited_member now id p user_id role table)
      (subst (λ xs. Memᴰ m xs) wrote member)) [
        | inl old ↦ inl old
        | inr new ↦ inr (rw (ap (λ n. n.role) new) bound)
      ]
