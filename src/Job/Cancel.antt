-- ===== src/Job/Cancel.antt =====
-- A cancellation is a request: it stops nothing by itself.
use cyber.Base.{ℕ, ◌≡◌, ◌≢◌, refl, Bool, true, false, List, [], ◌∷◌, map, arith, ◌==◌}
use cyber.Base.Errors.{Result, ok, err, ◌>>◌, >>=-ok}
use cyber.Identity.{Principal, assessment_cancel, require}
use cyber.Repository.{select, get_or_404}
use cyber.Repository.Update.{update_rows, map-update_rows, keep-update_rows}
use cyber.Audit.{AuditEvent}
use cyber.Job.Data.{ScannerJob, job_tenanted}
use cyber.Job.Life.{cancel_row, cancels, write_cancel, request_cancel}

require_ok :
    {B : Type 0} (m : Result (Unit {0})) (k : Result B) {x : B} → (m >> k) ≡ ok x → k ≡ ok x
require_ok (ok tt) k h = h
require_ok (err e) k h = cc

module _ (now : ℕ) (p : Principal) (id : ℕ) (table : List ScannerJob) where
  -- What an UPDATE of the cancellation writes.
  abbrev flagged : List ScannerJob
  flagged = (update_rows (cancels p.organization_id id) (cancel_row now p.user_id) table).0

  request_cancel_inv :
      {rows : List ScannerJob} {applied : Bool} {event : AuditEvent}
      → request_cancel now p id table ≡ ok (rows, applied, event)
      → rows ≡ flagged
  unfolding request_cancel write_cancel
  request_cancel_inv h =
      let (j, _, written) =
        >>=-ok (get_or_404 p.organization_id id table) (write_cancel now p id table)
          (require_ok (require p (assessment_cancel ∷ [])) _ h) in
      ground (arith, written)

  outside :
      (other : ℕ)
      → other ≢ p.organization_id
      → (j : ScannerJob) → cancels p.organization_id id j ≡ true
      → ((j.organization_id == other) ≡ false)
        × (((cancel_row now p.user_id j).organization_id == other) ≡ false)
  unfolding cancels cancel_row
  outside other foreign j h = ground (arith, foreign, h)

  select-flagged :
      (other : ℕ) → other ≢ p.organization_id → select other flagged ≡ select other table
  unfolding select
  select-flagged other foreign =
      keep-update_rows (λ j. j.organization_id == other) (cancels p.organization_id id)
        (cancel_row now p.user_id) (outside other foreign) table

  status-flagged : map (λ j. j.status) flagged ≡ map (λ j. j.status) table
  unfolding cancel_row
  status-flagged =
      map-update_rows (λ j. j.status) (cancels p.organization_id id) (cancel_row now p.user_id)
        (λ j. refl) table

  -- A cancellation that goes through rewrites the status of no job, and leaves the jobs of every
  -- other organization as they are.
  pub request_cancel_lem :
      {rows : List ScannerJob} {applied : Bool} {event : AuditEvent}
      → request_cancel now p id table ≡ ok (rows, applied, event)
      → (other : ℕ) → other ≢ p.organization_id
      → (map (λ j. j.status) rows ≡ map (λ j. j.status) table)
        × (select other rows ≡ select other table)
  request_cancel_lem h other foreign =
      rw (request_cancel_inv h) (status-flagged, select-flagged other foreign)
