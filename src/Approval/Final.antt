-- ===== src/Approval/Final.antt =====
-- A decision is final: nothing that happens to the table later lets the approval be answered again.
use cyber.Base.{
  ℕ, ◌≤◌, ◌≡◌, ◌≢◌, ◌∙◌, inl, inr, refl, sym, ap, subst, Bool, true, false, List, [], ◌∷◌, ◌++◌,
  contains, nat_eq, keep, length, length-append, arith, ==_iff,
}
use cyber.Base.Errors.{ok}
use cyber.Identity.{Principal}
use cyber.Audit.{AuditEvent}
use cyber.Repository.Update.{
  update_rows, map-update_rows, length-keep-update_rows, update_rows_count,
}
use cyber.Approval.Data.{Uuid, Approval, ApproveIn}
use cyber.Approval.Gate.{
  new_approval, matches, resolve_row, resolve_approval, is_swept, expire_row, expire_stale,
}
use cyber.Approval.Scope.{resolve_parts}
use cyber.Approval.Once.{
  Closes, resolve_row-Closes, expire_row-Closes, Step, opens, resolves, expires, Run, stop, step,
  open_approval_inv, keep-append, ids, matches_after,
}

-- The approval is in the table and no row of it is pending.
unfoldable pub IsAnswered : (org id : ℕ) → List Approval → Type 0
IsAnswered org id table =
    (contains id (ids table) ≡ true) × (length (keep (matches org id) table) ≡ 0)

matches-closed :
    (org id : ℕ) (change : Approval → Approval)
    → Closes change
    → (a : Approval) → matches org id (change a) ≡ false
unfolding matches
matches-closed org id change closes a = ground (arith, closes a)

-- A write that keeps the identifier and closes the row.
closing-IsAnswered :
    (org id : ℕ) (test : Approval → Bool) (change : Approval → Approval)
    → Closes change
    → ((a : Approval) → (change a).id ≡ a.id)
    → (table : List Approval) → IsAnswered org id table
    → IsAnswered org id (update_rows test change table).0
unfolding IsAnswered
closing-IsAnswered org id test change closes same table (there, none_left) = (
  ap (contains id) (map-update_rows (λ a. a.id) test change same table) ∙ there,
  omega (
    arith,
    none_left,
    length-keep-update_rows (matches org id) test change (matches-closed org id change closes)
        table,
  ),
)

contains-append : (id : ℕ) (xs ys : List ℕ) → contains id xs ≡ true → contains id (xs ++ ys) ≡ true
contains-append id [] ys h = cc
contains-append id (x ∷ xs) ys h = ground (arith, h, contains-append id xs ys)

ids-append : (xs ys : List Approval) → ids (xs ++ ys) ≡ ids xs ++ ids ys
ids-append [] ys = refl
ids-append (x ∷ xs) ys = ap (λ l. x.id ∷ l) (ids-append xs ys)

matches-other : (org id : ℕ) (a : Approval) → a.id ≢ id → matches org id a ≡ false
unfolding matches
matches-other org id a other = ground (arith, other)

distinct :
    (id new_id : ℕ) (xs : List ℕ) → contains id xs ≡ true → contains new_id xs ≡ false → new_id ≢ id
distinct id new_id xs there fresh same = cc

-- A new row has an identifier of its own.
append-IsAnswered :
    (org id : ℕ) (new : Approval) (table : List Approval)
    → contains new.id (ids table) ≡ false
    → IsAnswered org id table
    → IsAnswered org id (table ++ new ∷ [])
unfolding IsAnswered
append-IsAnswered org id new table fresh (there, none_left) =
    let other = matches-other org id new (distinct id new.id (ids table) there fresh) in
    let split =
      ap length (keep-append (matches org id) table (new ∷ []))
      ∙ length-append (keep (matches org id) table) (keep (matches org id) (new ∷ [])) in
    (
      subst (λ l. contains id l ≡ true) (sym (ids-append table (new ∷ [])))
          (contains-append id (ids table) (new.id ∷ []) there),
      ground (arith, split, other, none_left),
    )

Step-IsAnswered :
    (u : Uuid) (org id : ℕ) {t t' : List Approval}
    → Step u t t'
    → IsAnswered org id t
    → IsAnswered org id t'
unfolding expire_stale resolve_row expire_row new_approval
Step-IsAnswered u org id {t} (opens now new_id assessment input seen approval events fresh h)
      answered =
    elim (open_approval_inv now new_id assessment input seen t h) [
      | inl same ↦ subst (IsAnswered org id) (sym same) answered
      | inr (_, rows) ↦
          subst (IsAnswered org id) (sym rows)
            (append-IsAnswered org id (new_approval now new_id assessment input) t fresh answered)
    ]
Step-IsAnswered u org id {t} (resolves now p other input seen event h) answered =
    let (_, granted, _, _, _, _, _, rows) = resolve_parts u now p other input seen t h in
    subst (IsAnswered org id) (sym rows) (
      closing-IsAnswered org id (matches p.organization_id other)
        (resolve_row u now p input granted) (resolve_row-Closes u now p input granted) (λ a. refl) t
        answered)
Step-IsAnswered u org id {t} (expires now seen) answered =
    closing-IsAnswered org id (is_swept now seen) (expire_row now) (expire_row-Closes now)
      (λ a. refl) t answered

Run-IsAnswered :
    (u : Uuid) (org id : ℕ) {t t' : List Approval}
    → Run u t t'
    → IsAnswered org id t
    → IsAnswered org id t'
Run-IsAnswered u org id stop answered = answered
Run-IsAnswered u org id (step first run) answered =
    Run-IsAnswered u org id run (Step-IsAnswered u org id first answered)

matches-ids :
    (org id : ℕ) (table : List Approval)
    → 1 ≤ length (keep (matches org id) table)
    → contains id (ids table) ≡ true
unfolding matches
matches-ids org id [] h = ground (arith, h)
matches-ids org id (a ∷ rows) h = ground (arith, h, matches-ids org id rows, ==_iff a.id id)

-- The table that a resolution leaves.
resolved-IsAnswered :
    (org id : ℕ) (change : Approval → Approval)
    → Closes change
    → ((a : Approval) → (change a).id ≡ a.id)
    → (table : List Approval) → (update_rows (matches org id) change table).1 ≡ 1
    → IsAnswered org id (update_rows (matches org id) change table).0
unfolding IsAnswered
resolved-IsAnswered org id change closes same table one =
    let written = (update_rows (matches org id) change table).0 in
    let found : 1 ≤ length (keep (matches org id) table) =
      omega (arith, one, update_rows_count (matches org id) change table) in
    (
      ap (contains id) (map-update_rows (λ a. a.id) (matches org id) change same table)
          ∙ matches-ids org id table found,
      omega (
        arith,
        matches_after org id change change closes table,
        update_rows_count (matches org id) change written,
      ),
    )

-- Once a resolution of an approval has gone through, no resolution of it for the same organization
-- ever does again: whatever happens to the table in between, whoever answers, and whatever table
-- was read before, also one in which the approval was pending.
pub resolved_for_good :
    (u : Uuid) (now now' : ℕ) (p p' : Principal) (id : ℕ) (input input' : ApproveIn)
    → (seen seen' table : List Approval) {table' later : List Approval} {event : AuditEvent}
    → resolve_approval u now p id input seen table ≡ ok (table', event)
    → Run u table' later
    → p'.organization_id ≡ p.organization_id
    → (answer : List Approval × AuditEvent)
    → resolve_approval u now' p' id input' seen' later ≢ ok answer
unfolding IsAnswered resolve_row
resolved_for_good u now now' p p' id input input' seen seen' table {table'} {later} h run same
      (rows'', event') h' =
    let (_, granted, _, _, _, _, one, rows) = resolve_parts u now p id input seen table h in
    let (_, granted', _, _, _, _, one', _) = resolve_parts u now' p' id input' seen' later h' in
    let change = resolve_row u now p input granted in
    let answered =
      resolved-IsAnswered p.organization_id id change (resolve_row-Closes u now p input granted)
        (λ a. refl) table one in
    let (_, none_left) =
      Run-IsAnswered u p.organization_id id run
        (subst (IsAnswered p.organization_id id) (sym rows) answered) in
    let count =
      update_rows_count (matches p.organization_id id) (resolve_row u now' p' input' granted')
        later in
    let one_left : (update_rows (matches p.organization_id id)
          (resolve_row u now' p' input' granted') later).1
        ≡ 1 =
      subst (λ o. (update_rows (matches o id) (resolve_row u now' p' input' granted') later).1 ≡ 1)
        same one' in
    omega (arith, none_left, count, one_left)
