-- ===== src/Approval/Scope.antt =====
-- `resolve_approval`: what a resolution writes, and what the scanners may then touch.
use cyber.Base.{
  ℕ, ◌≡◌, sym, ◌∙◌, true, false, some, List, [], ◌∷◌, arith, contains, nat_eq, Within,
  contains-keep, Bool-cases, inl, inr,
}
use cyber.Base.Errors.{Result, ok, err, ◌>>=◌, ◌>>◌, >>=-ok}
use cyber.Identity.{Principal, assessment_approve, require}
use cyber.Repository.{get, get_or_404}
use cyber.Audit.{AuditEvent}
use cyber.Approval.Data.{
  string_eq, Uuid, Payload, Approval, approval_tenanted, ApproveIn, decision_of, is_granting,
  is_pending, requested_asset_ids, requested_scanners, approval_targets, scanner_values,
}
use cyber.Approval.Narrow.{narrow_payload, narrow_payload-Within}
use cyber.Repository.Update.{update_rows}
use cyber.Approval.Gate.{
  is_expired, matches, granted_payload, resolve_row, write_decision, answer_row, resolve_approval,
}

require_ok :
    {B : Type 0} (m : Result (Unit {0})) (k : Result B) {x : B} → (m >> k) ≡ ok x → k ≡ ok x
require_ok (ok tt) k h = h
require_ok (err e) k h = cc

get_or_404_inv :
    (org id : ℕ) (table : List Approval) {a : Approval}
    → get_or_404 org id table ≡ ok a
    → get org id table ≡ some a
unfolding get_or_404
get_or_404_inv org id table h = ground arith

granted_payload_lem :
    (u : Uuid) (a : Approval) (input : ApproveIn)
    → is_granting (decision_of input.decision) ≡ true
    → granted_payload u a input ≡ narrow_payload u a input
unfolding granted_payload
granted_payload_lem u a input grants = rw grants

module _ (u : Uuid) (now : ℕ) (p : Principal) (input : ApproveIn) (a : Approval) (granted : Payload)
    (e : granted_payload u a input ≡ ok granted) where
  targets-Within :
      (row : Approval)
      → Within
          (approval_targets u (resolve_row u now p input granted row)).0
          (requested_asset_ids u a)
        × Within
            (approval_targets u (resolve_row u now p input granted row)).1
            (requested_scanners a)
  unfolding approval_targets resolve_row
  targets-Within row = elim (Bool-cases (is_granting (decision_of input.decision))) [
    | inl grants ↦
        let narrow : narrow_payload u a input ≡ ok granted =
          sym (granted_payload_lem u a input grants) ∙ e in
        let (assets, _, scanners, _, _, _) = narrow_payload-Within u a input narrow in
        rw grants (
          assets,
          λ s m.
              scanners s
                (ground (arith, contains-keep (λ x. contains x scanner_values) s granted.scanners)),
        )
    | inr refuses ↦ rw refuses (λ x m. cc, λ s m. cc)
  ]

module _ (u : Uuid) (now : ℕ) (p : Principal) (id : ℕ) (input : ApproveIn)
    (seen table : List Approval) where
  answer_row_inv :
      (table : List Approval) (a : Approval) {r : List Approval × AuditEvent}
      → answer_row u now p id input table a ≡ ok r
      → (is_pending a.decision ≡ true)
        × (is_expired now a ≡ false)
        × ((granted_payload u a input >>= write_decision u now p id input table) ≡ ok r)
  unfolding answer_row
  answer_row_inv table a h = ground arith

  write_decision_inv :
      (table : List Approval) (granted : Payload) {table' : List Approval} {event : AuditEvent}
      → write_decision u now p id input table granted ≡ ok (table', event)
      → (table'
          ≡ (update_rows
              (matches p.organization_id id)
              (resolve_row u now p input granted)
              table).0)
        × ((update_rows (matches p.organization_id id) (resolve_row u now p input granted) table).1
            ≡ 1)
  unfolding write_decision
  write_decision_inv table granted h = ground arith

  -- The parts of a resolution that went through.
  pub resolve_parts :
      {table' : List Approval} {event : AuditEvent}
      → resolve_approval u now p id input seen table ≡ ok (table', event)
      → (a : Approval) × (granted : Payload) × (get p.organization_id id seen ≡ some a)
        × (is_pending a.decision ≡ true)
        × (is_expired now a ≡ false)
        × (granted_payload u a input ≡ ok granted)
        × ((update_rows (matches p.organization_id id) (resolve_row u now p input granted) table).1
            ≡ 1)
        × (table'
            ≡ (update_rows
                (matches p.organization_id id)
                (resolve_row u now p input granted)
                table).0)
  unfolding resolve_approval
  resolve_parts {table'} {event} h =
      let (a, found, h₁) =
        >>=-ok (get_or_404 p.organization_id id seen) (answer_row u now p id input table)
          (require_ok (require p (assessment_approve ∷ [])) _ h) in
      let (open_row, fresh, h₂) = answer_row_inv table a h₁ in
      let (granted, narrow, h₃) =
        >>=-ok (granted_payload u a input) (write_decision u now p id input table) h₂ in
      let (rows, one) = write_decision_inv table granted h₃ in
      (a, granted, get_or_404_inv _ _ _ found, open_row, fresh, narrow, one, rows)

  -- A resolution that goes through answers an approval of the caller's organization that was read
  -- as pending and in time, changes exactly one row, and that row then lets the scanners touch only
  -- assets and scanners that the agent proposed.
  pub resolve_approval_lem :
      {table' : List Approval} {event : AuditEvent}
      → resolve_approval u now p id input seen table ≡ ok (table', event)
      → (a : Approval) × (change : Approval → Approval) × (get p.organization_id id seen ≡ some a)
        × (is_pending a.decision ≡ true)
        × (is_expired now a ≡ false)
        × (update_rows (matches p.organization_id id) change table ≡ (table', 1))
        × ((row : Approval)
            → Within (approval_targets u (change row)).0 (requested_asset_ids u a)
              × Within (approval_targets u (change row)).1 (requested_scanners a))
  resolve_approval_lem h =
      let (a, granted, found, open_row, fresh, narrow, one, rows) = resolve_parts h in
      (
        a,
        resolve_row u now p input granted,
        found,
        open_row,
        fresh,
        cc (one, rows),
        targets-Within u now p input a granted narrow,
      )
