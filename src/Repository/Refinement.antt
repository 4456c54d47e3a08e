-- ===== src/Repository/Refinement.antt =====
-- A table that all tenants share, as against a store for each tenant.
use cyber.Base.{
  ℕ, ◌≡◌, refl, ap, ◌≢◌, ==_iff, Bool-cases, inl, inr, ◌∙◌, Bool, not, ◌&&◌, ◌==◌, ltb, arith,
  Option, none, some, List, [], ◌∷◌, ◌++◌, keep, length, take, drop, if◌then◌else◌,
}
use cyber.Repository.Isolation.{select-add_other, select-delete_other}
use cyber.Repository.{Tenanted, head_of, select, get, list_rows, count, exists, add, delete}

-- What a tenant may ask of a repository.
pub data Command (R : Type 0) : Type 0 where
  look_up : ℕ → Command R
  list_all : (limit offset : Option ℕ) → Command R
  how_many : Command R
  is_there : ℕ → Command R
  insert : R → Command R
  remove : ℕ → Command R

-- What it gets.
pub data Reply (R : Type 0) : Type 0 where
  row : Option R → Reply R
  rows : List R → Reply R
  number : ℕ → Reply R
  flag : Bool → Reply R
  done : Reply R

module _ {R : Type 0} ⦃t : Tenanted R⦄ where
  -- The repository of a tenant, over the table that all tenants share.
  unfoldable pub perform : ℕ → Command R → List R → Reply R × List R
  perform org (look_up id) table = (row (get org id table), table)
  perform org (list_all limit offset) table = (rows (list_rows org limit offset table), table)
  perform org how_many table = (number (count org table), table)
  perform org (is_there id) table = (flag (exists org id table), table)
  perform org (insert r) table = (done, add org r table)
  perform org (remove id) table = (number (delete org id table).1, (delete org id table).0)

  -- A part of a list.
  unfoldable pub page : (limit offset : Option ℕ) → List R → List R
  page none none own = own
  page none (some offset) own = drop offset own
  page (some limit) none own = take limit own
  page (some limit) (some offset) own = take limit (drop offset own)

  -- A store that has only one tenant's rows.
  unfoldable pub serve : ℕ → Command R → List R → Reply R × List R
  unfolding page
  serve org (look_up id) own = (row (head_of (keep (λ r. t.id r == id) own)), own)
  serve org (list_all limit offset) own = (rows (page limit offset own), own)
  serve org how_many own = (number (length own), own)
  serve org (is_there id) own = (flag (ltb 0 (length (keep (λ r. t.id r == id) own))), own)
  serve org (insert r) own = (done, own ++ t.stamp org r ∷ [])
  serve org (remove id) own =
      (number (length (keep (λ r. t.id r == id) own)), keep (λ r. not (t.id r == id)) own)

  -- Commands of several tenants, one after the other.
  unfoldable pub perform_all : List (ℕ × Command R) → List R → List (Reply R) × List R
  perform_all [] table = ([], table)
  perform_all ((org, c) ∷ commands) table =
      let (reply, next) = perform org c table in
      let (replies, last) = perform_all commands next in (reply ∷ replies, last)

  -- The stores after one of them changed.
  unfoldable pub put : ℕ → List R → (ℕ → List R) → ℕ → List R
  put org own stores other = if other == org then own else stores other

  unfoldable pub serve_all : List (ℕ × Command R) → (ℕ → List R) → List (Reply R) × (ℕ → List R)
  serve_all [] stores = ([], stores)
  serve_all ((org, c) ∷ commands) stores =
      let (reply, own) = serve org c (stores org) in
      let (replies, last) = serve_all commands (put org own stores) in (reply ∷ replies, last)

  exists-select :
      (org id : ℕ) (table : List R)
      → keep (λ r. t.organization_id r == org && t.id r == id) table
        ≡ keep (λ r. t.id r == id) (select org table)
  unfolding select
  exists-select org id [] = refl
  exists-select org id (r ∷ table) = ground (arith, exists-select org id table)

  select-delete :
      (org id : ℕ) (table : List R)
      → select org (delete org id table).0 ≡ keep (λ r. not (t.id r == id)) (select org table)
  unfolding select delete
  select-delete org id [] = refl
  select-delete org id (r ∷ table) = ground (arith, select-delete org id table)

  select-add :
      (org : ℕ) (r : R) (table : List R)
      → select org (add org r table) ≡ select org table ++ t.stamp org r ∷ []
  unfolding select add
  select-add org r [] = ground (arith, t.organization_id-stamp org r)
  select-add org r (x ∷ table) = ground (arith, select-add org r table)

  -- One command on the shared table answers as the tenant's own store does, and leaves the tenant's rows
  -- as that store would.
  perform-serve :
      (org : ℕ) (c : Command R) (table : List R)
      → ((perform org c table).0 ≡ (serve org c (select org table)).0)
        × (select org (perform org c table).1 ≡ (serve org c (select org table)).1)
  unfolding perform serve get list_rows count exists delete select
  perform-serve org (look_up id) table = (refl, refl)
  perform-serve org (list_all none none) table = (refl, refl)
  perform-serve org (list_all none (some offset)) table = (refl, refl)
  perform-serve org (list_all (some limit) none) table = (refl, refl)
  perform-serve org (list_all (some limit) (some offset)) table = (refl, refl)
  perform-serve org how_many table = (refl, refl)
  perform-serve org (is_there id) table =
      (ap (λ xs. flag (ltb 0 (length xs))) (exists-select org id table), refl)
  perform-serve org (insert r) table = (refl, select-add org r table)
  perform-serve org (remove id) table =
      (ap (λ xs. number (length xs)) (exists-select org id table), select-delete org id table)

  perform_other :
      (other org : ℕ) (c : Command R) (table : List R)
      → other ≢ org
      → select other (perform org c table).1 ≡ select other table
  unfolding perform
  perform_other other org (insert r) table ne = select-add_other org other r table ne
  perform_other other org (remove id) table ne = select-delete_other org other id table ne
  perform_other other org (look_up id) table ne = refl
  perform_other other org (list_all limit offset) table ne = refl
  perform_other other org how_many table ne = refl
  perform_other other org (is_there id) table ne = refl

  -- Each tenant's rows after a command, as the stores have them.
  perform-put :
      (org : ℕ) (c : Command R) (table : List R) (stores : ℕ → List R)
      → ((o : ℕ) → select o table ≡ stores o)
      → (o : ℕ) → select o (perform org c table).1 ≡ put org (serve org c (stores org)).1 stores o
  unfolding put
  perform-put org c table stores agree o = elim (Bool-cases (o == org)) [
    | inl same ↦ rw same (
        ap (λ k. select k (perform org c table).1) ((==_iff o org).0 same)
        ∙ (perform-serve org c table).1
        ∙ ap (λ xs. (serve org c xs).1) (agree org))
    | inr differ ↦
        let apart : o ≢ org = ground (arith, differ) in
        rw differ (perform_other o org c table apart ∙ agree o)
  ]

  perform_all-agree :
      (commands : List (ℕ × Command R)) (table : List R) (stores : ℕ → List R)
      → ((o : ℕ) → select o table ≡ stores o)
      → (o : ℕ)
      → ((perform_all commands table).0 ≡ (serve_all commands stores).0)
        × (select o (perform_all commands table).1 ≡ (serve_all commands stores).1 o)
  unfolding perform_all serve_all
  perform_all-agree [] table stores agree o = (refl, agree o)
  perform_all-agree ((org, c) ∷ commands) table stores agree o =
      let rest =
        perform_all-agree commands (perform org c table).1
          (put org (serve org c (stores org)).1 stores) (perform-put org c table stores agree) o in
      let reply = (perform-serve org c table).0 ∙ ap (λ xs. (serve org c xs).0) (agree org) in
      (rw (reply, rest.0) refl, rest.1)

  -- Whatever the tenants do, in whatever order, on the table that they share, every answer is the one that
  -- separate stores would have given, and every tenant's rows are left as its own store would leave them.
  pub perform_all-serve_all :
      (commands : List (ℕ × Command R)) (table : List R) (o : ℕ)
      → ((perform_all commands table).0 ≡ (serve_all commands (λ org. select org table)).0)
        × (select o (perform_all commands table).1
            ≡ (serve_all commands (λ org. select org table)).1 o)
  perform_all-serve_all commands table o =
      perform_all-agree commands table (λ org. select org table) (λ org. refl) o
