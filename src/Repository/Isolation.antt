-- ===== src/Repository/Isolation.antt =====
-- What one tenant does to a table and sees of it, beside another tenant.
use cyber.Base.{ℕ, ◌+◌, ◌≡◌, ◌≢◌, refl, some, List, [], ◌∷◌, arith, is_some}
use cyber.Base.Errors.{tenant_isolation, ok, err}
use cyber.Repository.{Tenanted, select, get, get_or_404, count, exists, add, delete}

module _ {R : Type 0} ⦃t : Tenanted R⦄ (org : ℕ) where
  pub select-add_other :
      (other : ℕ) (r : R) (table : List R)
      → other ≢ org
      → select other (add org r table) ≡ select other table
  unfolding select add
  select-add_other other r [] ne = ground (arith, t.organization_id-stamp org r)
  select-add_other other r (x ∷ table) ne = ground (arith, select-add_other other r table ne)

  pub select-delete_other :
      (other id : ℕ) (table : List R)
      → other ≢ org
      → select other (delete org id table).0 ≡ select other table
  unfolding select delete
  select-delete_other other id [] ne = refl
  select-delete_other other id (r ∷ table) ne =
      ground (arith, select-delete_other other id table ne)

  -- A row that a tenant adds, whatever organization it was filled in with, and a row that it
  -- deletes leave the rows of every other tenant as they were.
  pub writes_isolated :
      (other : ℕ) (r : R) (id : ℕ) (table : List R)
      → other ≢ org
      → (select other (add org r table) ≡ select other table)
        × (select other (delete org id table).0 ≡ select other table)
  writes_isolated other r id table ne =
      (select-add_other other r table ne, select-delete_other other id table ne)

  -- What a lookup by id finds belongs to the tenant and has the id.
  pub get_sound :
      (id : ℕ) (table : List R) (r : R)
      → get org id table ≡ some r
      → (t.organization_id r ≡ org) × (t.id r ≡ id)
  unfolding get
  get_sound id [] r e = cc
  get_sound id (x ∷ table) r e = ground (arith, get_sound id table r)

  pub get_or_404_found :
      (id : ℕ) (table : List R) {r : R} → get org id table ≡ some r → get_or_404 org id table ≡ ok r
  unfolding get_or_404
  get_or_404_found id table e = rw (e, get_or_404)

  -- The existence test agrees with the lookup.
  pub exists_iff : (id : ℕ) (table : List R) → exists org id table ≡ is_some (get org id table)
  unfolding exists get
  exists_iff id [] = refl
  exists_iff id (x ∷ table) = ground (arith, exists_iff id table)

  -- After a deletion the tenant does not find the row, and it has as many rows fewer as it is told.
  pub delete_lem :
      (id : ℕ) (table : List R)
      → (get_or_404 org id (delete org id table).0 ≡ err tenant_isolation)
        × (count org (delete org id table).0 + (delete org id table).1 ≡ count org table)
  unfolding get_or_404 get delete count
  delete_lem id [] = (refl, refl)
  delete_lem id (x ∷ table) = ground (arith, delete_lem id table)
