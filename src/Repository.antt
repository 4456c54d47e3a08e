-- ===== src/Repository.antt =====
-- backend/app/db/repository.py: a table seen through one tenant. A table is the list of its rows,
-- in the order in which the database returns them; loader options are not modelled.
pub mod Isolation
pub mod Refinement
pub mod Update
use cyber.Base.{
  ℕ, zero, ◌+◌, ◌≡◌, ◌<◌, Bool, true, false, not, ◌&&◌, Option, none, some, List, [], ◌∷◌, ◌++◌,
  ltb, ◌==◌, if◌then◌else◌, keep, length, take, drop,
}
use cyber.Base.Errors.{tenant_isolation, Result, ok, err}

-- What a tenant-scoped model has: an id, and an organization that can be stamped.
pub record Tenanted (R : Type 0) : Type 0 where
  pub id : R → ℕ
  pub organization_id : R → ℕ
  pub stamp : ℕ → R → R
  pub organization_id-stamp : (o : ℕ) (r : R) → organization_id (stamp o r) ≡ o
  pub id-stamp : (o : ℕ) (r : R) → id (stamp o r) ≡ id r

abbrev pub head_of {ℓ} : {A : Type ℓ} → List A → Option A
head_of [] = none
head_of (x ∷ xs) = some x

module _ {R : Type 0} ⦃t : Tenanted R⦄ (org : ℕ) where
  -- `tenant_select`
  unfoldable pub select : List R → List R
  select table = keep (λ r. t.organization_id r == org) table

  -- `TenantRepository.get`; the id is a primary key, so there is one row at most.
  unfoldable pub get : ℕ → List R → Option R
  unfolding select
  get id table = head_of (keep (λ r. t.id r == id) (select table))

  -- `TenantRepository.get_or_404`
  unfoldable pub get_or_404 : ℕ → List R → Result R
  get_or_404 id table = elim (get id table) [ none ↦ err tenant_isolation | some r ↦ ok r ]

  -- `TenantRepository.list`, in the table's order; an offset of 0 is no offset.
  unfoldable pub list_rows : Option ℕ → Option ℕ → List R → List R
  unfolding select
  list_rows none none table = select table
  list_rows none (some offset) table = drop offset (select table)
  list_rows (some limit) none table = take limit (select table)
  list_rows (some limit) (some offset) table = take limit (drop offset (select table))

  -- `TenantRepository.count`
  unfoldable pub count : List R → ℕ
  count table = length (keep (λ r. t.organization_id r == org) table)

  -- `TenantRepository.exists`
  unfoldable pub exists : ℕ → List R → Bool
  exists id table = ltb 0 (length (keep (λ r. t.organization_id r == org && t.id r == id) table))

  -- `TenantRepository.add`
  unfoldable pub add : R → List R → List R
  add r table = table ++ t.stamp org r ∷ []

  -- `TenantRepository.delete`: the rows left, and how many went.
  unfoldable pub delete : ℕ → List R → List R × ℕ
  delete id table = (
    keep (λ r. not (t.organization_id r == org && t.id r == id)) table,
    length (keep (λ r. t.organization_id r == org && t.id r == id) table),
  )

-- `assert_tenant_owned`, over a row or the null that a lookup gave; the model's column is not
-- nullable.
unfoldable pub assert_tenant_owned :
    {R : Type 0} ⦃t : Tenanted R⦄ → ℕ → Option R → Result (Unit {0})
assert_tenant_owned org none = err tenant_isolation
assert_tenant_owned ⦃t⦄ org (some r) =
    if t.organization_id r == org then ok tt else err tenant_isolation
