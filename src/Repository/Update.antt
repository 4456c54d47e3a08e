-- ===== src/Repository/Update.antt =====
-- An UPDATE statement with a condition, as the services of backend/app/services use it.
use cyber.Base.{
  ℕ, suc, ◌≡◌, refl, Bool, true, false, List, [], ◌∷◌, map, keep, length, ◌≤◌, arith, if◌then◌else◌,
  All, Bool-cases, inl, inr,
}

module _ {ℓ} {A : Type ℓ} where
  -- The rows, and the row count.
  unfoldable pub update_rows : (A → Bool) → (A → A) → List A → List A × ℕ
  update_rows test change [] = ([], 0)
  update_rows test change (a ∷ rows) =
      let (rest, count) = update_rows test change rows in
      if test a then (change a ∷ rest, suc count) else (a ∷ rest, count)

  -- A column that the UPDATE does not write stays as it is.
  pub map-update_rows {κ} :
      {B : Type κ} (column : A → B) (test : A → Bool) (change : A → A)
      → ((a : A) → column (change a) ≡ column a)
      → (table : List A) → map column (update_rows test change table).0 ≡ map column table
  unfolding update_rows
  map-update_rows column test change kept [] = refl
  map-update_rows column test change kept (a ∷ rows) =
      ground (arith, kept a, map-update_rows column test change kept rows)

  -- The rows of a selection that the condition of the UPDATE leaves out stay as they are.
  pub keep-update_rows :
      (q test : A → Bool) (change : A → A)
      → ((a : A) → test a ≡ true → (q a ≡ false) × (q (change a) ≡ false))
      → (table : List A) → keep q (update_rows test change table).0 ≡ keep q table
  unfolding update_rows
  keep-update_rows q test change outside [] = refl
  keep-update_rows q test change outside (a ∷ rows) =
      ground (arith, outside a, keep-update_rows q test change outside rows)

  -- An UPDATE whose rows leave a selection makes that selection no longer.
  pub length-keep-update_rows :
      (q test : A → Bool) (change : A → A)
      → ((a : A) → q (change a) ≡ false)
      → (table : List A) → length (keep q (update_rows test change table).0) ≤ length (keep q table)
  unfolding update_rows
  length-keep-update_rows q test change leaves [] = omega arith
  length-keep-update_rows q test change leaves (a ∷ rows) =
      ground (arith, leaves a, length-keep-update_rows q test change leaves rows)

  -- What the written rows meet, and the others met already, all rows meet.
  pub All-update_rows {κ} :
      (P : A → Type κ) (test : A → Bool) (change : A → A)
      → ((a : A) → test a ≡ true → P (change a))
      → ((a : A) → test a ≡ false → P a)
      → (table : List A) → All P (update_rows test change table).0
  unfolding update_rows
  All-update_rows P test change written left [] = tt
  All-update_rows P test change written left (a ∷ rows) =
      let rest = All-update_rows P test change written left rows in
      elim (Bool-cases (test a)) [
        | inl meets ↦ rw meets (written a meets, rest)
        | inr fails ↦ rw fails (left a fails, rest)
      ]

  -- The row count is the number of rows that meet the condition.
  pub update_rows_count :
      (test : A → Bool) (change : A → A) (table : List A)
      → (update_rows test change table).1 ≡ length (keep test table)
  unfolding update_rows
  update_rows_count test change [] = refl
  update_rows_count test change (a ∷ rows) = ground (arith, update_rows_count test change rows)
