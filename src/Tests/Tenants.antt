-- ===== src/Tests/Tenants.antt =====
-- backend/app/db/repository.py on a table of two tenants.
use cyber.Base.{ℕ, ◌≡◌, refl, none, some, List, [], ◌∷◌, Option}
use cyber.Base.Errors.{tenant_isolation, err}
use cyber.Assessment.Status.{created, failed, discovery, AssessmentStatus}
use cyber.Assessment.Stage.{queued}
use cyber.Assessment.Service.{Assessment, assessment_tenanted}
use cyber.Repository.{select, get, get_or_404}
use cyber.Repository.Refinement.{
  Command, look_up, insert, remove, how_many, perform_all, serve_all, perform_all-serve_all,
}
use cyber.Repository.Isolation.{get_sound}

abbrev row : ℕ → ℕ → AssessmentStatus → Option ℕ → Assessment
row id org status over = record {
  id = id;
  organization_id = org;
  status = status;
  current_stage = queued;
  progress_percent = 0;
  started_at = none;
  completed_at = over;
  failure_reason = none;
  degradations = [];
}

abbrev table : List Assessment
table = row 1 7 created none ∷ row 2 8 failed (some 5) ∷ row 3 7 discovery none ∷ []

-- The second tenant's row is not found by the first.
get_elsewhere : get_or_404 7 2 table ≡ err tenant_isolation
unfolding get_or_404 get select
get_elsewhere = refl

get_sound_example :
    (assessment_tenanted.organization_id (row 3 7 discovery none) ≡ 7)
    × (assessment_tenanted.id (row 3 7 discovery none) ≡ 3)
get_sound_example = get_sound 7 3 table (row 3 7 discovery none) (unfold get select in refl)

-- Two tenants in turn.
abbrev commands : List (ℕ × Command Assessment)
commands =
    (7, insert (row 4 8 created none))
    ∷ (8, look_up 4)
    ∷ (8, remove 2)
    ∷ (7, remove 2)
    ∷ (7, how_many)
    ∷ []

perform_all-serve_all_example :
    ((perform_all commands table).0 ≡ (serve_all commands (λ org. select org table)).0)
    × (select 8 (perform_all commands table).1 ≡ (serve_all commands (λ org. select org table)).1 8)
perform_all-serve_all_example = perform_all-serve_all commands table 8
