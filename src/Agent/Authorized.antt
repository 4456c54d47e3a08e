-- ===== src/Agent/Authorized.antt =====
-- Nothing is scanned without an approval that grants it.
use mathlib.Core.List.{Memᴰ}
use cyber.Base.{
  ℕ, ◌≡◌, refl, sym, ap, subst, ◌∙◌, Bool, true, false, not, ◌==◌, ==_iff, Bool-cases, inl, inr,
  arith, Option, none, some, List, [], ◌∷◌, contains, nat_eq, Text, one_of, All, All-append,
  Mem-keep, Mem-map, no_member, if◌then◌else◌,
}
use cyber.Base.Errors.{Error, Result, ok, err, >>=-ok, ok_inj}
use cyber.Repository.{select}
use cyber.Assessment.Stage.{AssessmentStage}
use cyber.Assessment.Status.{AssessmentStatus}
use cyber.Assessment.Service.{Assessment, transition}
use cyber.Approval.Data.{
  string_eq, Uuid, Approval, ApprovalKind, ScannerName, scanner_value, approval_targets,
}
use cyber.Approval.Gate.{granted_approval}
use cyber.Targets.Data.{ValidatedTarget, TargetPolicySettings, IpAddress}
use cyber.Targets.Policy.{is_empty}
use cyber.Targets.Classify.{Parsers, validate_target}
use cyber.Agent.Scan.{
  ScanAsset, asset_tenanted, assets_by_ids, scan_policy, NoScan, active_scanner_names, is_dropped,
  add_once, add_target, canonical_from, canonical_targets, approved_scanners, Scope, nothing, scope,
  scope_of, resolve_scope, ScanPlan, plan_of, is_at_gate, authorize_and_plan, execute_scanners,
}

All-add_once :
    (P : Text → Type 0) (t : Text) (seen : List Text) → P t → All P seen → All P (add_once t seen)
unfolding add_once
All-add_once P t seen p all = elim (Bool-cases (one_of t seen)) [
  | inl known ↦ rw known all
  | inr fresh ↦ rw fresh (All-append P seen (t ∷ []) all (p, tt))
]

refuse_err :
    (e : Error) (seen : List Text) {next : List Text}
    → (if is_dropped e then ok seen else err e) ≡ ok next
    → ok seen ≡ ok next
refuse_err e seen h = ground (arith, h)

scope_found :
    (b : Bool) (reason : NoScan) (r : Result Scope) {targets : List Text}
    {scanners : List ScannerName}
    → (if b then ok (nothing reason) else r) ≡ ok (scope targets scanners)
    → r ≡ ok (scope targets scanners)
scope_found true reason r h = cc
scope_found false reason r h = h

scope_of-scope :
    (scanners : List ScannerName) (targets : List Text) {targets' : List Text}
    {scanners' : List ScannerName}
    → scope_of scanners targets ≡ scope targets' scanners'
    → (targets ≡ targets') × (scanners ≡ scanners')
unfolding scope_of
scope_of-scope scanners [] h = cc
scope_of-scope scanners (t ∷ targets) h = (cc, cc)

-- A plan that has a job is not the one that skips the scan.
not_skipped :
    (b : Bool) (a : Assessment) (r : Result (ScanPlan × Assessment)) {plan : ScanPlan}
    {moved : Assessment}
    → {job : ScannerName × List Text}
    → (if b then ok (record { skip = true; jobs = []; no_scan_reason = none }, a) else r)
      ≡ ok (plan, moved)
    → Memᴰ job plan.jobs
    → r ≡ ok (plan, moved)
not_skipped true a r h m = no_member (ap (λ p. p.0.jobs) (sym (ok_inj h))) m
not_skipped false a r h m = h

not_scanned :
    (b : Bool) (a : Assessment) (r : Result (List (ScannerName × List Text) × Assessment))
    → {jobs : List (ScannerName × List Text)} {moved : Assessment} {job : ScannerName × List Text}
    → (if b then ok ([], a) else r) ≡ ok (jobs, moved)
    → Memᴰ job jobs
    → r ≡ ok (jobs, moved)
not_scanned true a r h m = no_member (ap (λ p. p.0) (sym (ok_inj h))) m
not_scanned false a r h m = h

module _ (i : IpAddress) (x : Parsers) where
  All-add_target :
      (P : Text → Type 0) (seen : List Text) (r : Result ValidatedTarget) {next : List Text}
      → ((v : ValidatedTarget) → r ≡ ok v → P v.canonical)
      → All P seen
      → add_target seen r ≡ ok next
      → All P next
  unfolding add_target
  All-add_target P seen (ok v) good all h =
      let e : add_once v.canonical seen ≡ _ = ok_inj h in
      subst (All P) e (All-add_once P v.canonical seen (good v refl) all)
  All-add_target P seen (err e) good all h = subst (All P) (ok_inj (refuse_err e seen h)) all

  All-canonical_from :
      (P : Text → Type 0) (policy : TargetPolicySettings) (seen : List Text)
      (assets : List ScanAsset)
      → ((a : ScanAsset) (v : ValidatedTarget)
          → Memᴰ a assets
          → validate_target i x a.name policy ≡ ok v
          → P v.canonical)
      → All P seen
      → {targets : List Text} → canonical_from i x policy seen assets ≡ ok targets
      → All P targets
  unfolding canonical_from
  All-canonical_from P policy seen [] good all h = subst (All P) (ok_inj h) all
  All-canonical_from P policy seen (a ∷ assets) good all h =
      let (next, added, rest) = >>=-ok (add_target seen (validate_target i x a.name policy)) _ h in
      All-canonical_from P policy next assets (λ b v m e. good b v (Memᴰ.tail m) e)
        (All-add_target P seen (validate_target i x a.name policy)
          (λ v e. good a v (Memᴰ.head refl) e) all added)
        rest

module _ (u : Uuid) (i : IpAddress) (x : Parsers) where
  -- What a target of a scan rests on: an asset of the organization that the approval lists, whose name the
  -- policy accepts as that target.
  unfoldable pub IsApproved : ℕ → List ScanAsset → TargetPolicySettings → Approval → Text → Type 0
  IsApproved organization_id table policy g t =
      (a : ScanAsset) × Memᴰ a table
      × (a.organization_id ≡ organization_id)
      × (contains a.id (approval_targets u g).0 ≡ true)
      × ((v : ValidatedTarget) × (validate_target i x a.name policy ≡ ok v) × (t ≡ v.canonical))

  IsApproved-assets :
      (organization_id : ℕ) (policy : TargetPolicySettings) (table : List ScanAsset) (g : Approval)
      → (targets : List Text)
      → canonical_targets i x (assets_by_ids organization_id (approval_targets u g).0 table) policy
        ≡ ok targets
      → All (IsApproved organization_id table policy g) targets
  unfolding canonical_targets assets_by_ids select IsApproved
  IsApproved-assets organization_id policy table g targets h =
      All-canonical_from i x (IsApproved organization_id table policy g) policy []
        (assets_by_ids organization_id (approval_targets u g).0 table)
        (λ a v m e.
          let (selected, listed) = Mem-keep (λ b. contains b.id (approval_targets u g).0) _ m in
          let (member, own) = Mem-keep (λ b. b.organization_id == organization_id) table selected in
          (a, member, (==_iff _ _).0 own, listed, (v, e, refl)))
        tt h

  plan_of_scope :
      (organization_id : ℕ) (policy : TargetPolicySettings) (table : List ScanAsset)
      (found : Option Approval)
      → (it : Scope) → resolve_scope u i x organization_id policy table found ≡ ok it
      → (s : ScannerName) (targets : List Text) → Memᴰ (s, targets) (plan_of it).jobs
      → (g : Approval) × (found ≡ some g)
        × (contains (scanner_value s) (approval_targets u g).1 ≡ true)
        × All (IsApproved organization_id table policy g) targets
  unfolding resolve_scope plan_of approved_scanners
  plan_of_scope organization_id policy table found (nothing reason) h s targets m = elim m [ ]
  plan_of_scope organization_id policy table none (scope ts scanners) h s targets m = cc
  plan_of_scope organization_id policy table (some g) (scope ts scanners) h s targets m =
      let (found, canonical, built) =
        >>=-ok
          (canonical_targets i x (assets_by_ids organization_id (approval_targets u g).0 table)
            policy)
          _ (scope_found (is_empty (approved_scanners u g)) _ _ h) in
      let (same, chosen) = scope_of-scope (approved_scanners u g) found (ok_inj built) in
      let (s', member, e) = Mem-map (λ s. (s, ts)) scanners m in
      let approved = subst (λ xs. Memᴰ s' xs) (sym chosen) member in
      (
        g,
        refl,
        ap (λ n. contains (scanner_value n) (approval_targets u g).1) (ap (λ p. p.0) e)
            ∙ (Mem-keep (λ n. contains (scanner_value n) (approval_targets u g).1)
                active_scanner_names approved).1,
        subst (All (IsApproved organization_id table policy g)) (same ∙ sym (ap (λ p. p.1) e))
            (IsApproved-assets organization_id policy table g found canonical),
      )

  -- A job of the plan is a job of the scope that was resolved.
  job_of_scope :
      (now : ℕ) (a : Assessment) (approvals : List Approval) (table : List ScanAsset)
      → (extra : Option (List Text)) (settings : TargetPolicySettings)
      → (plan : ScanPlan) (moved : Assessment) (job : ScannerName × List Text)
      → authorize_and_plan u i x now a approvals table extra settings ≡ ok (plan, moved)
      → Memᴰ job plan.jobs
      → (it : Scope) × (resolve_scope u i x a.organization_id
            (scan_policy extra settings)
            table
            (granted_approval a.id ApprovalKind.scan_scope approvals)
          ≡ ok it)
        × Memᴰ job (plan_of it).jobs
  unfolding authorize_and_plan
  job_of_scope now a approvals table extra settings plan moved job h m =
      let first =
        resolve_scope u i x a.organization_id (scan_policy extra settings) table
          (granted_approval a.id ApprovalKind.scan_scope approvals) in
      let (it, resolved, rest) = >>=-ok first _ (not_skipped (not (is_at_gate a.status)) a _ h m) in
      let (after, stepped, built) =
        >>=-ok (transition now a AssessmentStatus.scanning (some AssessmentStage.scan_nmap) none) _
          rest in
      (it, resolved, subst (λ p. Memᴰ job p.jobs) (sym (ap (λ p. p.0) (ok_inj built))) m)

  -- Every job that the node runs uses a scanner that an approval of this assessment grants, the one resolved
  -- last, on targets each of which is an asset of the organization that this approval lists and whose name
  -- passes, at the time of the scan, the policy with the organization's own entries.
  pub scan_authorized :
      (scanned : Bool) (now : ℕ) (a : Assessment) (approvals : List Approval)
      (table : List ScanAsset)
      → (extra : Option (List Text)) (settings : TargetPolicySettings)
      → (jobs : List (ScannerName × List Text)) (moved : Assessment)
      → execute_scanners u i x scanned now a approvals table extra settings ≡ ok (jobs, moved)
      → (s : ScannerName) (targets : List Text) → Memᴰ (s, targets) jobs
      → (g : Approval) × (granted_approval a.id ApprovalKind.scan_scope approvals ≡ some g)
        × (contains (scanner_value s) (approval_targets u g).1 ≡ true)
        × All (IsApproved a.organization_id table (scan_policy extra settings) g) targets
  unfolding execute_scanners
  scan_authorized scanned now a approvals table extra settings jobs moved h s targets m =
      let ((plan, after), planned, built) =
        >>=-ok (authorize_and_plan u i x now a approvals table extra settings) _
          (not_scanned scanned a _ h m) in
      let in_plan = subst (λ xs. Memᴰ (s, targets) xs) (sym (ap (λ p. p.0) (ok_inj built))) m in
      let (it, resolved, in_scope) =
        job_of_scope now a approvals table extra settings plan after (s, targets) planned in_plan in
      plan_of_scope a.organization_id (scan_policy extra settings) table
        (granted_approval a.id ApprovalKind.scan_scope approvals) it resolved s targets in_scope
