-- ===== src/Approval/Once.antt =====
-- One pending approval for an assessment and a kind, whatever happens to the table of approvals.
use cyber.Base.{
  map, contains, nat_eq, ℕ, ◌≤◌, ◌+◌, ◌≡◌, refl, sym, ap, ◌∙◌, Bool, true, false, none, List, [],
  ◌∷◌, ◌++◌, arith, keep, length, Bool-cases, inl, inr, ==_iff, ◌⊎◌, subst, length-append,
}
use cyber.Base.Errors.{ok}
use cyber.Identity.{Principal}
use cyber.Audit.{AuditEvent}
use cyber.Assessment.Service.{Assessment}
use cyber.Approval.Data.{
  Uuid, Payload, Approval, approval_tenanted, ApproveIn, decision_of, is_pending, ApprovalKind,
  kind_eq,
}
use cyber.Repository.Update.{update_rows}
use cyber.Approval.Gate.{
  is_open, pending_approval, latest, OpenIn, new_approval, open_approval, matches, resolve_row,
  resolve_approval, expire_row, expire_stale,
}
use cyber.Approval.Scope.{resolve_parts}

-- A write takes a row out of those that are pending.
abbrev pub Closes : (Approval → Approval) → Type 0
Closes change = (a : Approval) → is_pending (change a).decision ≡ false

pub resolve_row-Closes :
    (u : Uuid) (now : ℕ) (p : Principal) (input : ApproveIn) (granted : Payload)
    → Closes (resolve_row u now p input granted)
unfolding resolve_row decision_of is_pending
resolve_row-Closes u now p input granted a = ground arith

pub expire_row-Closes : (now : ℕ) → Closes (expire_row now)
unfolding expire_row is_pending
expire_row-Closes now a = refl

-- After such a write no row is left for the conditional UPDATE to match.
pub matches_after :
    (org id : ℕ) (change change' : Approval → Approval)
    → Closes change
    → (table : List Approval)
    → (update_rows (matches org id) change' (update_rows (matches org id) change table).0).1 ≡ 0
unfolding update_rows matches
matches_after org id change change' closes [] = refl
matches_after org id change change' closes (a ∷ rows) =
    ground (arith, closes a, matches_after org id change change' closes rows)

-- How many approvals of an assessment and a kind are pending.
abbrev pub open_count : ℕ → ApprovalKind → List Approval → ℕ
open_count assessment_id kind table = length (keep (is_open assessment_id kind) table)

-- Every assessment has at most one pending approval of a kind.
unfoldable pub IsSingle : List Approval → Type 0
IsSingle table = (assessment_id : ℕ) (kind : ApprovalKind) → open_count assessment_id kind table ≤ 1

-- An UPDATE that only closes rows leaves no more of them open.
open_count-update_rows :
    (assessment_id : ℕ) (kind : ApprovalKind) (test : Approval → Bool)
    (change : Approval → Approval)
    → Closes change
    → (table : List Approval)
    → open_count assessment_id kind (update_rows test change table).0
      ≤ open_count assessment_id kind table
unfolding update_rows is_open
open_count-update_rows assessment_id kind test change closes [] = omega arith
open_count-update_rows assessment_id kind test change closes (a ∷ rows) =
    ground (arith, closes a, open_count-update_rows assessment_id kind test change closes rows)

update_rows-IsSingle :
    (test : Approval → Bool) (change : Approval → Approval)
    → Closes change
    → (table : List Approval) → IsSingle table
    → IsSingle (update_rows test change table).0
unfolding IsSingle
update_rows-IsSingle test change closes table single assessment_id kind = omega (
  arith,
  single assessment_id kind,
  open_count-update_rows assessment_id kind test change closes table,
)

pub latest_none : (time : Approval → ℕ) (rows : List Approval) → latest time rows ≡ none → rows ≡ []
unfolding latest
latest_none time [] h = refl
latest_none time (a ∷ rows) h = ground arith

pub keep-append :
    (p : Approval → Bool) (xs ys : List Approval) → keep p (xs ++ ys) ≡ keep p xs ++ keep p ys
keep-append p [] ys = refl
keep-append p (x ∷ xs) ys = ground (arith, keep-append p xs ys)

is_open_inv :
    (assessment_id : ℕ) (kind : ApprovalKind) (a : Approval)
    → is_open assessment_id kind a ≡ true
    → (a.assessment_id ≡ assessment_id) × (a.kind ≡ kind)
unfolding is_open
is_open_inv assessment_id kind a h =
    ground (arith, kind_eq.equals_iff a.kind kind, ==_iff a.assessment_id assessment_id)

vacant_none :
    (assessment_id : ℕ) (kind : ApprovalKind) (table : List Approval)
    → pending_approval assessment_id kind table ≡ none
    → open_count assessment_id kind table ≡ 0
unfolding pending_approval
vacant_none assessment_id kind table vacant =
    ap length (latest_none (λ a. a.created_at) (keep (is_open assessment_id kind) table) vacant)

-- A new row is one of its own assessment and kind, of which there was none.
open_none :
    (now id : ℕ) (assessment : Assessment) (input : OpenIn) (table : List Approval)
    → pending_approval assessment.id input.kind table ≡ none
    → (assessment_id : ℕ) (kind : ApprovalKind)
    → is_open assessment_id kind (new_approval now id assessment input) ≡ true
    → open_count assessment_id kind table ≡ 0
unfolding new_approval
open_none now id assessment input table vacant assessment_id kind is_new =
    let (id_same, kind_same) =
      is_open_inv assessment_id kind (new_approval now id assessment input) is_new in
    cc (vacant_none assessment.id input.kind table vacant, id_same, kind_same)

-- The row that is opened is the only one of its assessment and kind.
open_count-append :
    (now id : ℕ) (assessment : Assessment) (input : OpenIn) (table : List Approval)
    → pending_approval assessment.id input.kind table ≡ none
    → IsSingle table
    → IsSingle (table ++ new_approval now id assessment input ∷ [])
unfolding IsSingle
open_count-append now id assessment input table vacant single assessment_id kind =
    let new = new_approval now id assessment input in
    let split : open_count assessment_id kind (table ++ new ∷ [])
        ≡ open_count assessment_id kind table + open_count assessment_id kind (new ∷ []) =
      ap length (keep-append (is_open assessment_id kind) table (new ∷ []))
      ∙ length-append (keep (is_open assessment_id kind) table) _ in
    elim (Bool-cases (is_open assessment_id kind new)) [
      | inr closed ↦ ground (arith, split, closed, single assessment_id kind)
      | inl is_new ↦
          let none_open =
            open_none now id assessment input table vacant assessment_id kind is_new in
          ground (arith, split, is_new, none_open)
    ]

-- The identifiers of the rows.
abbrev pub ids : List Approval → List ℕ
ids table = map (λ a. a.id) table

-- What happens to the table of approvals: an opening with an identifier that is new, a resolution, and a sweep,
-- each by someone who read the table earlier.
pub data Step (u : Uuid) : List Approval → List Approval → Type 0 where
  opens :
      {table table' : List Approval}
      → (now id : ℕ) (assessment : Assessment) (input : OpenIn) (seen : List Approval)
        (approval : Approval)
      → (events : List AuditEvent) → contains id (ids table) ≡ false
      → open_approval now id assessment input seen table ≡ ok (approval, table', events)
      → Step u table table'
  resolves :
      {table table' : List Approval}
      → (now : ℕ) (p : Principal) (id : ℕ) (input : ApproveIn) (seen : List Approval)
        (event : AuditEvent)
      → resolve_approval u now p id input seen table ≡ ok (table', event)
      → Step u table table'
  expires :
      {table : List Approval}
      → (now : ℕ) (seen : List Approval) → Step u table (expire_stale now seen table).0

pub data Run (u : Uuid) : List Approval → List Approval → Type 0 where
  stop : {table : List Approval} → Run u table table
  step : {t₁ t₂ t₃ : List Approval} → Step u t₁ t₂ → Run u t₂ t₃ → Run u t₁ t₃

pub open_approval_inv :
    (now id : ℕ) (assessment : Assessment) (input : OpenIn) (seen table : List Approval)
    {approval : Approval} {table' : List Approval} {events : List AuditEvent}
    → open_approval now id assessment input seen table ≡ ok (approval, table', events)
    → (table' ≡ table)
      ⊎ ((pending_approval assessment.id input.kind seen ≡ none)
          × (table' ≡ table ++ new_approval now id assessment input ∷ []))
unfolding open_approval
open_approval_inv now id assessment input seen table h = ground arith

-- An opening that looked for a pending row finds the same when it inserts as when it looked.
abbrev pub IsSerial : {u : Uuid} {t t' : List Approval} → Step u t t' → Type 0
IsSerial {u} {t} (opens now id assessment input seen approval events fresh h) =
    pending_approval assessment.id input.kind seen ≡ pending_approval assessment.id input.kind t
IsSerial _ = Unit {0}

abbrev pub AllSerial : {u : Uuid} {t t' : List Approval} → Run u t t' → Type 0
AllSerial stop = Unit {0}
AllSerial (step first run) = IsSerial first × AllSerial run

Step-IsSingle :
    (u : Uuid) {t t' : List Approval} (s : Step u t t') → IsSerial s → IsSingle t → IsSingle t'
unfolding expire_stale
Step-IsSingle u {t} (opens now id assessment input seen approval events fresh h) serial single =
    elim (open_approval_inv now id assessment input seen t h) [
      | inl same ↦ subst IsSingle (sym same) single
      | inr (vacant, rows) ↦
          subst IsSingle (sym rows)
            (open_count-append now id assessment input t (sym serial ∙ vacant) single)
    ]
Step-IsSingle u {t} (resolves now p id input seen event h) serial single =
    let (_, granted, _, _, _, _, _, rows) = resolve_parts u now p id input seen t h in
    subst IsSingle (sym rows)
      (update_rows-IsSingle _ _ (resolve_row-Closes u now p input granted) t single)
Step-IsSingle u {t} (expires now seen) serial single =
    update_rows-IsSingle _ _ (expire_row-Closes now) t single

-- In whatever order approvals are opened, answered and expired, an assessment never has more than one pending
-- approval of a kind, when it had at most one at the start, and each opening finds the same pending approval,
-- or the lack of one, when it inserts as when it looked. Answers and sweeps may have read any table.
pub Run_IsSingle :
    (u : Uuid) {t t' : List Approval} (run : Run u t t') → AllSerial run → IsSingle t → IsSingle t'
Run_IsSingle u stop serial single = single
Run_IsSingle u (step first run) (serial, later) single =
    Run_IsSingle u run later (Step-IsSingle u first serial single)
