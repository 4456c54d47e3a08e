-- ===== src/Identity/Grants.antt =====
-- backend/app/db/enums.py, backend/app/services/context.py: who may do what.
use cyber.Base.{
  ℕ, ==_iff, ◌≤◌, ◌<◌, ◌≡◌, refl, true, Option, none, some, List, [], ◌∷◌, arith, Within, contains,
  is_subset, ◌↔◌, is_subset-Within, subst,
}
use cyber.Base.Errors.{permission_denied, ok, err}
use cyber.Identity.{
  Role, viewer, permission_eq, rank, Permission, permissions, Principal, has, require, for_agent,
  downgraded_to, agent, read_only,
}

subset_of_rank :
    (low high : Role) → rank low ≤ rank high → is_subset (permissions low) (permissions high) ≡ true
unfolding rank permissions
subset_of_rank viewer viewer h = refl
subset_of_rank _ _ h = ground arith

Within-refl : (r s : Role) → r ≡ s → Within (permissions r) (permissions s)
Within-refl r s e a m = subst (λ t. contains a (permissions t) ≡ true) e m

-- A role that ranks higher holds every permission of one that ranks lower.
pub permissions_mono :
    (low high : Role) → rank low ≤ rank high → Within (permissions low) (permissions high)
permissions_mono low high h = is_subset-Within _ _ (subset_of_rank low high h)

-- A principal gets through exactly when it holds every permission that is asked for.
pub require_iff :
    (p : Principal) (wanted : List Permission)
    → (require p wanted ≡ ok tt) ↔ (is_subset wanted (permissions p.role) ≡ true)
unfolding require has
require_iff p [] = (λ _. refl, λ _. refl)
require_iff p (q ∷ qs) = ground (arith, require_iff p qs)

-- Downgrading is refused exactly when the role asked for ranks higher. What it gives differs from
-- the principal in its role alone, and holds no permission that the principal lacks.
pub downgraded_to-Within :
    (p : Principal) (role : Role)
    → ((downgraded_to p role ≡ err permission_denied) ↔ (rank p.role < rank role))
      × ((q : Principal)
          → downgraded_to p role ≡ ok q
          → (q ≡ record p { role = role }) × Within (permissions q.role) (permissions p.role))
unfolding downgraded_to
downgraded_to-Within p role =
    (ground arith, λ q h. (ground arith, permissions_mono q.role p.role (ground arith)))

-- The permissions of the one on whose behalf an agent runs; with nobody there, those of reading.
abbrev pub authority : Option Principal → List Permission
authority none = read_only
authority (some p) = permissions p.role

-- That the one who asked for a run, if there is one, is a member of an organization.
abbrev pub IsMember : (organization_id : ℕ) → Option Principal → Type 0
IsMember organization_id none = Unit {0}
IsMember organization_id (some p) = p.organization_id ≡ organization_id

-- An agent's principal belongs to the run's organization and holds no permission beyond those of
-- the one who asked for the run, who is of that organization too; with nobody there it can read.
pub for_agent-Within :
    (organization_id : ℕ) (on_behalf_of : Option Principal) {q : Principal}
    → for_agent organization_id on_behalf_of ≡ ok q
    → (q.organization_id ≡ organization_id)
      × (q.actor_type ≡ agent)
      × IsMember organization_id on_behalf_of
      × Within (permissions q.role) (authority on_behalf_of)
unfolding for_agent permissions
for_agent-Within organization_id none {q} h =
    (ground arith, ground arith, tt, Within-refl q.role viewer (ground arith))
for_agent-Within organization_id (some p) {q} h = (
  ground arith,
  ground arith,
  ground (arith, ==_iff p.organization_id organization_id),
  Within-refl q.role p.role (ground arith),
)
