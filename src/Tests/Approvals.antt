-- ===== src/Tests/Approvals.antt =====
-- backend/app/services/approval.py on one pending approval.
use Prim.Native.String.{String}
use cyber.Base.{
  List, nat_eq, ℕ, zero, suc, ◌≡◌, ◌≢◌, ◌≤◌, refl, true, false, Option, none, some, [], ◌∷◌, arith,
  Within, length,
}
use cyber.Base.Errors.{ok}
use cyber.Identity.{role_has, permissions, require, missing, has_all}
use cyber.Repository.{select, get, get_or_404}
use cyber.Audit
use cyber.Audit.{AuditEvent, record_event}
use cyber.Assessment.Stage.{asset_analysis}
use cyber.Assessment.Status.{discovery}
use cyber.Assessment.Service.{Assessment}
use cyber.Tests.Identities.{engineer}
use cyber.Approval.Data.{
  string_eq, approval_tenanted, ApprovalDecision, pending, scan_scope, medium, nmap, Uuid, Payload,
  no_payload, Approval, customized, ApproveIn, decision_of, is_granting, is_pending, parse_all,
  requested_asset_ids, requested_scanners, approval_targets, scanner_value,
}
use cyber.Approval.Narrow.{
  narrowed, narrowed_assets, narrowed_scanners, narrow_payload, narrow_payload-Within, max_assets,
}
use cyber.Repository.Update.{update_rows}
use cyber.Approval.Gate.{
  is_expired, matches, granted_payload, resolve_row, write_decision, answer_row, resolve_approval,
  OpenIn, new_approval, open_approval, pending_approval, latest, expire_stale, decision_action,
  decision_outcome,
}
use cyber.Approval.Scope.{resolve_approval_lem}
use cyber.Approval.Final.{resolved_for_good}
use cyber.Approval.Once.{Run_IsSingle, stop, step, opens, expires, IsSingle}

-- Identifiers written in unary.
abbrev pub text : ℕ → String
text zero = ""
text (suc n) = String.◌∷◌ "I" (text n)

abbrev pub parse : String → Option ℕ
parse String.[] = some 0
parse (String.◌∷◌ c s) = let rest = parse s in elim rest [ none ↦ none | some n ↦ some (suc n) ]

pub parse-text : (n : ℕ) → parse (text n) ≡ some n
parse-text zero = refl
parse-text (suc n) = ground (arith, parse-text n)

abbrev pub unary : Uuid
unary = record { parse = parse; text = text; parse-text = parse-text }

abbrev pub proposal : Payload
proposal = record {
  asset_ids = "II" ∷ "IIII" ∷ "III" ∷ [];
  scanners = "nmap" ∷ "nuclei" ∷ [];
  decision = none;
  depth = some "standard";
  rate_limit = some 50;
}

abbrev pub gate : Approval
gate = record {
  id = 5;
  organization_id = 7;
  assessment_id = 1;
  kind = scan_scope;
  decision = pending;
  requested_payload = proposal;
  approved_payload = no_payload;
  risk_level = medium;
  created_at = 100;
  expires_at = some 200;
  resolved_at = none;
  resolved_by_id = none;
  resolution_note = none;
}

-- The operator asks for an asset that was proposed and for one that was not.
abbrev some_of_it : ApproveIn
some_of_it = record {
  decision = customized;
  asset_ids = some (3 ∷ 9 ∷ []);
  scanners = some (nmap ∷ []);
  note = none;
}

abbrev pub cut : Payload
cut = record {
  asset_ids = "III" ∷ [];
  scanners = "nmap" ∷ [];
  decision = some ApprovalDecision.customized;
  depth = some "standard";
  rate_limit = some 50;
}

abbrev pub answered : Approval
answered = record gate {
  decision = ApprovalDecision.customized;
  approved_payload = cut;
  resolved_at = some 150;
  resolved_by_id = some 3;
}

abbrev answer_event : AuditEvent
answer_event =
    record_event 150 Audit.approval_customized (some engineer) none (some 5) Audit.success

cut_lem : narrow_payload unary gate some_of_it ≡ ok cut
unfolding narrow_payload narrowed_assets narrowed_scanners narrowed parse_all requested_asset_ids
    requested_scanners scanner_value decision_of
cut_lem = refl

answered_lem :
    resolve_approval unary 150 engineer 5 some_of_it (gate ∷ []) (gate ∷ [])
    ≡ ok (answered ∷ [], answer_event)
unfolding resolve_approval require missing has_all role_has permissions get_or_404 get select
    answer_row is_pending is_expired granted_payload is_granting decision_of narrow_payload
    narrowed_assets narrowed_scanners narrowed parse_all requested_asset_ids requested_scanners
    scanner_value write_decision update_rows matches resolve_row decision_action decision_outcome
answered_lem = refl

narrow_payload-Within_example :
    Within (parse_all unary cut.asset_ids) (requested_asset_ids unary gate)
    × Within (parse_all unary cut.asset_ids) (3 ∷ 9 ∷ [])
    × Within cut.scanners (requested_scanners gate)
    × (parse_all unary cut.asset_ids ≢ [])
    × (cut.scanners ≢ [])
    × (length (parse_all unary cut.asset_ids) ≤ max_assets)
narrow_payload-Within_example = narrow_payload-Within unary gate some_of_it cut_lem

resolve_approval_lem_example :
    (a : Approval) × (change : Approval → Approval) × (get 7 5 (gate ∷ []) ≡ some a)
    × (is_pending a.decision ≡ true)
    × (is_expired 150 a ≡ false)
    × (update_rows (matches 7 5) change (gate ∷ []) ≡ (answered ∷ [], 1))
    × ((row : Approval)
        → Within (approval_targets unary (change row)).0 (requested_asset_ids unary a)
          × Within (approval_targets unary (change row)).1 (requested_scanners a))
resolve_approval_lem_example =
    resolve_approval_lem unary 150 engineer 5 some_of_it (gate ∷ []) (gate ∷ []) answered_lem

-- A second operator, who read the row while it was pending, answers after a sweep.
resolved_for_good_example :
    resolve_approval unary 301 engineer 5 some_of_it
      (gate ∷ [])
      (expire_stale 300 (gate ∷ []) (answered ∷ [])).0
    ≢ ok (answered ∷ [], answer_event)
resolved_for_good_example =
    resolved_for_good unary 150 301 engineer engineer 5 some_of_it some_of_it (gate ∷ [])
      (gate ∷ []) (gate ∷ []) answered_lem (step (expires 300 (gate ∷ [])) stop) refl
      (answered ∷ [], answer_event)

abbrev waiting : Assessment
waiting = record {
  id = 1;
  organization_id = 7;
  status = discovery;
  current_stage = asset_analysis;
  progress_percent = 40;
  started_at = some 10;
  completed_at = none;
  failure_reason = none;
  degradations = [];
}

abbrev wanted : OpenIn
wanted = record {
  kind = scan_scope;
  requested_payload = proposal;
  risk_level = medium;
  ttl_hours = some 1;
  policy_hours = none;
}

abbrev first : Approval
first = new_approval 100 5 waiting wanted

abbrev second : Approval
second = new_approval 100 6 waiting wanted

abbrev opening : ℕ → List AuditEvent
opening id = record_event 100 Audit.approval_requested none (some 7) (some id) Audit.success ∷ []

opened : open_approval 100 5 waiting wanted [] [] ≡ ok (first, first ∷ [], opening 5)
unfolding open_approval pending_approval latest
opened = refl

-- Two openings that have both looked before either inserts leave two pending approvals.
opened_twice :
    open_approval 100 6 waiting wanted [] (first ∷ []) ≡ ok (second, first ∷ second ∷ [], opening 6)
unfolding open_approval pending_approval latest
opened_twice = refl

none_yet : IsSingle []
unfolding IsSingle
none_yet assessment_id kind = omega arith

-- An approval is opened, and a sweep that has read it expires it.
Run_IsSingle_example : IsSingle (expire_stale 4000 (first ∷ []) (first ∷ [])).0
Run_IsSingle_example =
    Run_IsSingle unary
      (step (opens 100 5 waiting wanted [] first (opening 5) refl opened)
        (step (expires 4000 (first ∷ [])) stop))
      (refl, (tt, tt)) none_yet
