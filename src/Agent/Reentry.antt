-- ===== src/Agent/Reentry.antt =====
-- The node that asks for the approval, entered a second time.
use cyber.Base.{
  ℕ, ◌≡◌, refl, sym, ap, subst, ◌∙◌, true, false, inl, inr, arith, Option, none, some, Option-cases,
  List, [], ◌∷◌, ◌++◌, keep, Text,
}
use cyber.Base.Errors.{ok, >>=-ok, ok_inj}
use cyber.Audit
use cyber.Audit.{AuditEvent, record_event}
use cyber.Assessment.Stage.{AssessmentStage}
use cyber.Assessment.Status.{AssessmentStatus, status_eq}
use cyber.Assessment.Service.{Assessment, transition, move, set_given_stage}
use cyber.Assessment.Transition.{transition_cases, transition_iff}
use cyber.Approval.Data.{Uuid, Approval, kind_eq, is_pending}
use cyber.Approval.Gate.{
  OpenIn, open_approval, pending_approval, latest, is_open, new_approval, is_forbidden,
}
use cyber.Approval.Once.{latest_none, keep-append}
use cyber.Agent.Request.{ProposedAsset, risk_level, scope_request, open_and_stage}

is_open-new_approval :
    (now id : ℕ) (a : Assessment) (input : OpenIn)
    → is_open a.id input.kind (new_approval now id a input) ≡ true
unfolding is_open new_approval is_pending
is_open-new_approval now id a input =
    ground (arith, (kind_eq.equals_iff input.kind input.kind).1 refl)

open_existing :
    (now id : ℕ) (a : Assessment) (input : OpenIn) (table : List Approval) (existing : Approval)
    → is_forbidden input.risk_level ≡ false
    → pending_approval a.id input.kind table ≡ some existing
    → open_approval now id a input table table ≡ ok (existing, table, [])
unfolding open_approval
open_existing now id a input table existing allowed found = rw (allowed, found, open_approval) refl

open_vacant :
    (now id : ℕ) (a : Assessment) (input : OpenIn) (table : List Approval)
    → is_forbidden input.risk_level ≡ false
    → pending_approval a.id input.kind table ≡ none
    → (events : List AuditEvent) × (open_approval now id a input table table
        ≡ ok (new_approval now id a input, table ++ new_approval now id a input ∷ [], events))
unfolding open_approval
open_vacant now id a input table allowed vacant =
    let new = new_approval now id a input in
    let events =
      record_event now Audit.approval_requested none (some a.organization_id) (some id)
        Audit.success
      ∷ [] in
    (events, rw (allowed, vacant, open_approval) refl)

pending_new :
    (now id : ℕ) (a : Assessment) (input : OpenIn) (table : List Approval)
    → pending_approval a.id input.kind table ≡ none
    → pending_approval a.id input.kind (table ++ new_approval now id a input ∷ [])
      ≡ some (new_approval now id a input)
unfolding pending_approval latest
pending_new now id a input table vacant =
    let new = new_approval now id a input in
    let selected : keep (is_open a.id input.kind) (table ++ new ∷ []) ≡ new ∷ [] =
      keep-append (is_open a.id input.kind) table (new ∷ [])
      ∙ ap (λ xs. xs ++ keep (is_open a.id input.kind) (new ∷ []))
          (latest_none (λ b. b.created_at) (keep (is_open a.id input.kind) table) vacant)
      ∙ rw (is_open-new_approval now id a input) refl in
    ap (latest (λ b. b.created_at)) selected

-- What was opened is what the lookup finds.
pending-open_approval :
    (now id : ℕ) (a : Assessment) (input : OpenIn) (table : List Approval)
    → {approval : Approval} {table' : List Approval} {events : List AuditEvent}
    → is_forbidden input.risk_level ≡ false
    → open_approval now id a input table table ≡ ok (approval, table', events)
    → pending_approval a.id input.kind table' ≡ some approval
pending-open_approval now id a input table allowed h =
    elim (Option-cases (pending_approval a.id input.kind table)) [
      | inl vacant ↦
          let (events, opened) = open_vacant now id a input table allowed vacant in
          let e = ok_inj (sym opened ∙ h) in
          subst (λ r. pending_approval a.id input.kind r.1 ≡ some r.0) e
            (pending_new now id a input table vacant)
      | inr (existing, found) ↦
          let e = ok_inj (sym (open_existing now id a input table existing allowed found) ∙ h) in
          subst (λ r. pending_approval a.id input.kind r.1 ≡ some r.0) e found
    ]

never_forbidden : (assets : List ProposedAsset) → is_forbidden (risk_level assets) ≡ false
unfolding risk_level
never_forbidden assets = ground arith

id-set_given_stage :
    (a : Assessment) (stage : Option AssessmentStage) → (set_given_stage a stage).id ≡ a.id
unfolding set_given_stage
id-set_given_stage a none = refl
id-set_given_stage a (some stage) = refl

id-move :
    (now : ℕ) (a : Assessment) (to : AssessmentStatus) (stage : Option AssessmentStage)
    → (move now a to stage none).id ≡ a.id
unfolding move
id-move now a to stage = ground arith

id-transition :
    (now : ℕ) (a : Assessment) (to : AssessmentStatus) (stage : Option AssessmentStage)
    {moved : Assessment}
    → transition now a to stage none ≡ ok moved
    → moved.id ≡ a.id
id-transition now a to stage h = elim (transition_cases now a to stage none) [
  | inl (same, e) ↦ ap (λ b. b.id) (ok_inj (sym h ∙ e)) ∙ id-set_given_stage a stage
  | inr (inl (differ, listed, e)) ↦ ap (λ b. b.id) (ok_inj (sym h ∙ e)) ∙ id-move now a to stage
  | inr (inr (differ, unlisted, e)) ↦ cc
]

-- An assessment that has the status already takes the stage.
transition_again :
    (now : ℕ) (a : Assessment) (to : AssessmentStatus) (stage : Option AssessmentStage)
    → a.status ≡ to
    → transition now a to stage none ≡ ok (set_given_stage a stage)
unfolding transition
transition_again now a to stage same =
    rw ((status_eq.equals_iff a.status to).1 same, transition) refl

status-set_given_stage :
    (a : Assessment) (stage : Option AssessmentStage) → (set_given_stage a stage).status ≡ a.status
unfolding set_given_stage
status-set_given_stage a none = refl
status-set_given_stage a (some stage) = refl

-- A node that is entered again after it went through, as after a crash, and whatever it would propose by
-- then, gives the same approval, opens no second one, and leaves the assessment waiting; at each entry the table has not
-- changed between the look for a pending approval and the write.
pub open_and_stage_lem :
    (u : Uuid) (now id : ℕ) (ttl policy : Option ℕ) (depth : Option Text)
    (assets : List ProposedAsset)
    → (a : Assessment) (table : List Approval)
    → (approval : Approval) (table' : List Approval) (events : List AuditEvent) (moved : Assessment)
    → open_and_stage u now id ttl policy depth assets a table table
      ≡ ok ((approval, table', events), moved)
    → (later id' : ℕ) (ttl' policy' : Option ℕ) (depth' : Option Text)
      (assets' : List ProposedAsset)
    → (again : Assessment) × (open_and_stage u later id' ttl' policy' depth' assets' moved table'
          table'
        ≡ ok ((approval, table', []), again))
      × (again.status ≡ AssessmentStatus.waiting_for_approval)
unfolding open_and_stage scope_request
open_and_stage_lem u now id ttl policy depth assets a table approval table' events moved h later id'
      ttl' policy' depth' assets' =
    let input = scope_request u ttl policy depth assets in
    let input' = scope_request u ttl' policy' depth' assets' in
    let (opened, e1, h1) = >>=-ok (open_approval now id a input table table) _ h in
    let (waiting, e2, h2) =
      >>=-ok
        (transition now a AssessmentStatus.waiting_for_approval (some AssessmentStage.approval)
          none)
        _ h1 in
    let e = ok_inj h2 in
    let e1' = e1 ∙ ap ok (ap (λ r. r.0) e) in
    let e2' = e2 ∙ ap ok (ap (λ r. r.1) e) in
    let found = pending-open_approval now id a input table (never_forbidden assets) e1' in
    let same =
      id-transition now a AssessmentStatus.waiting_for_approval (some AssessmentStage.approval)
        e2' in
    let found' : pending_approval moved.id input'.kind table' ≡ some approval = rw same found in
    let second =
      open_existing later id' moved input' table' approval (never_forbidden assets') found' in
    let waits =
      (transition_iff now a AssessmentStatus.waiting_for_approval (some AssessmentStage.approval)
          none).1
        moved e2' in
    let third =
      transition_again later moved AssessmentStatus.waiting_for_approval
        (some AssessmentStage.approval) waits in
    (
      set_given_stage moved (some AssessmentStage.approval),
      rw (second, third) refl,
      status-set_given_stage moved (some AssessmentStage.approval) ∙ waits,
    )
