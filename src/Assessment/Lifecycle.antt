-- ===== src/Assessment/Lifecycle.antt =====
-- The life of an assessment: sequences of moves and degradation entries, by the agent, the worker and the
-- operators, in any order, but one after the other: each acts on the row as the one before left it. `transition`
-- checks the row that its session has loaded and writes by key, without a lock or a condition on the status, so
-- that sessions that overlap are not covered here.
use cyber.Base.{
  ℕ, suc, ◌+◌, ◌≤◌, ◌<◌, ◌≡◌, ◌⊎◌, inl, inr, refl, sym, true, Option, arith, contains, length, Text,
  Bool-cases, length-append, length-take-le, leb, if◌then◌else◌, subst, ap, ◌∙◌,
}
use cyber.Base.Errors.{ok}
use cyber.Identity.{permission_eq}
use cyber.Assessment.Status.{
  AssessmentStatus, created, planning, discovery, waiting_for_approval, scanning, analyzing,
  remediating, completed, failed, cancelling, cancelled, status_eq, is_terminal,
  allowed_transitions,
}
use cyber.Assessment.Stage.{AssessmentStage}
use cyber.Assessment.Service.{Assessment, transition, record_degradation, max_degradations}
use cyber.Assessment.Transition.{
  IsConsistent, transition_cases, transition_iff, transition-IsConsistent, terminal_stays,
}

-- A sequence of operations that succeeded, each on the row as the one before left it.
pub data Run (a : Assessment) : Assessment → Type 0 where
  here : Run a a
  moved :
      {b : Assessment} {c : Assessment}
      → Run a b
      → (now : ℕ) (to : AssessmentStatus) (stage : Option AssessmentStage) (reason : Option Text)
      → transition now b to stage reason ≡ ok c
      → Run a c
  noted :
      {b : Assessment} {c : Assessment}
      → Run a b
      → (now : ℕ) (stage component reason impact : Text)
      → c ≡ (record_degradation now b stage component reason impact).0
      → Run a c

length_degradations :
    (now : ℕ) (a : Assessment) (stage component reason impact : Text)
    → length a.degradations ≤ 200
    → length (record_degradation now a stage component reason impact).0.degradations ≤ 200
unfolding record_degradation
length_degradations now a stage component reason impact h =
    elim (Bool-cases (leb max_degradations (length a.degradations))) [
      | inl full ↦ rw (full, length-append) (omega (arith, length-take-le {0} 199 a.degradations))
      | inr room ↦ rw (room, length-append) (ground arith)
    ]

record_degradation-IsConsistent :
    (now : ℕ) (a : Assessment) (stage component reason impact : Text)
    → IsConsistent a
    → IsConsistent (record_degradation now a stage component reason impact).0
unfolding record_degradation
record_degradation-IsConsistent now a stage component reason impact v = record {
  percentage = v.percentage;
  ended = v.ended;
  noted = length_degradations now a stage component reason impact v.noted;
}

-- Moves and degradation entries in any order keep the row of an assessment consistent, as long as each acts on
-- the row as the one before left it: no two sessions overlap.
pub Run-IsConsistent : {a b : Assessment} → IsConsistent a → Run a b → IsConsistent b
Run-IsConsistent v here = v
Run-IsConsistent v (moved {b} {c} r now to stage reason e) =
    transition-IsConsistent now b to stage reason (Run-IsConsistent v r) e
Run-IsConsistent v (noted {b} {c} r now stage component reason impact e) =
    subst IsConsistent (sym e)
      (record_degradation-IsConsistent now b stage component reason impact (Run-IsConsistent v r))

-- How many changes of status are left at most.
abbrev pub height : AssessmentStatus → ℕ
height created = 8
height planning = 7
height discovery = 6
height waiting_for_approval = 5
height scanning = 4
height analyzing = 3
height remediating = 2
height cancelling = 1
height completed = 0
height failed = 0
height cancelled = 0

height_allowed :
    (s to : AssessmentStatus) → contains to (allowed_transitions s) ≡ true → height to < height s
unfolding allowed_transitions
height_allowed created to h = ground arith
height_allowed _ to h = ground arith

-- The changes of status in a sequence of operations.
abbrev pub changes : {a b : Assessment} → Run a b → ℕ
changes here = 0
changes (moved {b} {c} r now to stage reason e) =
    let before = changes r in if status_eq.equals b.status c.status then before else suc before
changes (noted r now stage component reason impact e) = changes r

height_step :
    (now : ℕ) (b : Assessment) (to : AssessmentStatus) (stage : Option AssessmentStage)
    (reason : Option Text) {c : Assessment}
    → transition now b to stage reason ≡ ok c
    → (b.status ≡ c.status) ⊎ (height c.status < height b.status)
height_step now b to stage reason {c} h =
    let lands : c.status ≡ to = (transition_iff now b to stage reason).1 c h in
    elim (transition_cases now b to stage reason) [
      | inl (same, e) ↦ inl (cc)
      | inr (inl (differ, listed, e)) ↦ inr (rw lands (height_allowed b.status to listed))
      | inr (inr (differ, unlisted, e)) ↦ cc
    ]

height_same : (s t : AssessmentStatus) → s ≡ t → height s ≡ height t
height_same s t e = ap height e

noted_keeps :
    (now : ℕ) (b : Assessment) (stage component reason impact : Text) {c : Assessment}
    → c ≡ (record_degradation now b stage component reason impact).0
    → (c.status ≡ b.status)
      × (c.completed_at ≡ b.completed_at)
      × (c.failure_reason ≡ b.failure_reason)
unfolding record_degradation
noted_keeps now b stage component reason impact e = (
  ap (λ (x : Assessment). x.status) e,
  ap (λ (x : Assessment). x.completed_at) e,
  ap (λ (x : Assessment). x.failure_reason) e,
)

-- In such a sequence the status of an assessment changes at most as often as the height of its first status, so
-- eight times.
pub changes_bounded :
    {a b : Assessment} (r : Run a b) → changes r + height b.status ≤ height a.status
changes_bounded here = omega arith
changes_bounded (moved {b} {c} r now to stage reason e) =
    elim (height_step now b to stage reason e) [
      | inl same ↦
          rw ((status_eq.equals_iff b.status c.status).1 same)
            (omega (arith, changes_bounded r, height_same b.status c.status same))
      | inr fell ↦ ground (arith, changes_bounded r, fell)
    ]
changes_bounded (noted {b} {c} r now stage component reason impact e) =
    rw (ap height (noted_keeps now b stage component reason impact e).0) (changes_bounded r)

-- Moves and degradation entries in any order leave the status, the end time and the reason of the failure of an
-- assessment in a terminal status as they are, as long as each acts on the row as the one before left it: no two
-- sessions overlap.
pub Run_terminal :
    {a b : Assessment}
    → is_terminal a.status ≡ true
    → Run a b
    → (b.status ≡ a.status)
      × (b.completed_at ≡ a.completed_at)
      × (b.failure_reason ≡ a.failure_reason)
Run_terminal done here = (refl, refl, refl)
Run_terminal {a} done (moved {b} {c} r now to stage reason e) =
    let (s, t, f) = Run_terminal done r in
    let still : is_terminal b.status ≡ true = subst (λ x. is_terminal x ≡ true) (sym s) done in
    let (s', t', f') = terminal_stays now b to stage reason still e in (s' ∙ s, t' ∙ t, f' ∙ f)
Run_terminal done (noted {b} {c} r now stage component reason impact e) =
    let (s, t, f) = Run_terminal done r in
    let (s', t', f') = noted_keeps now b stage component reason impact e in (s' ∙ s, t' ∙ t, f' ∙ f)
