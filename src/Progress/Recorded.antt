-- ===== src/Progress/Recorded.antt =====
-- `_index_steps`: which recorded step speaks for a stage.
use mathlib.Core.List.{Memᴰ}
use cyber.Base.{◌≤◌, ◌≡◌, ◌⊎◌, inl, inr, Option, none, some, List, [], ◌∷◌, arith, All}
use cyber.Assessment.Stage.{AssessmentStage, stage_eq}
use cyber.Progress.Checklist.{
  Step, rank, named_stage, ByStage, record_step, keep_better, replaces, index_steps_from,
  index_steps,
}

-- The step found ranks at least as high as this one.
abbrev pub AtLeast : Option Step → Step → Type 0
AtLeast none t = ⊥
AtLeast (some s) t = rank t ≤ rank s

module _ (k : AssessmentStage) where
  AtLeast-record_step :
      (best : ByStage) (step t : Step) → AtLeast (best k) t → AtLeast (record_step best step k) t
  unfolding record_step keep_better replaces
  AtLeast-record_step best step t h = ground (arith, stage_eq.equals_iff k)

  AtLeast-new :
      (best : ByStage) (step : Step)
      → named_stage step ≡ some k
      → AtLeast (record_step best step k) step
  unfolding record_step keep_better replaces
  AtLeast-new best step h = ground (arith, stage_eq.equals_iff k k)

  AtLeast-index_steps_from :
      (best : ByStage) (steps : List Step) (t : Step)
      → AtLeast (best k) t
      → AtLeast (index_steps_from best steps k) t
  unfolding index_steps_from
  AtLeast-index_steps_from best [] t h = h
  AtLeast-index_steps_from best (step ∷ steps) t h =
      AtLeast-index_steps_from (record_step best step) steps t (AtLeast-record_step best step t h)

  AtLeast-All :
      (best : ByStage) (steps : List Step)
      → All (λ t. named_stage t ≡ some k → AtLeast (index_steps_from best steps k) t) steps
  unfolding index_steps_from
  AtLeast-All best [] = tt
  AtLeast-All best (step ∷ steps) = (
    λ h. AtLeast-index_steps_from (record_step best step) steps step (AtLeast-new best step h),
    AtLeast-All (record_step best step) steps,
  )

  record_step-eq_some :
      (best : ByStage) (step : Step) {s : Step}
      → record_step best step k ≡ some s
      → ((named_stage step ≡ some k) × (s ≡ step)) ⊎ (best k ≡ some s)
  unfolding record_step keep_better replaces
  record_step-eq_some best step e = ground (arith, stage_eq.equals_iff k)

  index_steps_from-eq_some :
      (best : ByStage) (steps : List Step) {s : Step}
      → index_steps_from best steps k ≡ some s
      → ((named_stage s ≡ some k) × Memᴰ s steps) ⊎ (best k ≡ some s)
  unfolding index_steps_from
  index_steps_from-eq_some best [] e = inr e
  index_steps_from-eq_some best (step ∷ steps) e =
      elim (index_steps_from-eq_some (record_step best step) steps e) [
        | inl (names, m) ↦ inl (names, Memᴰ.tail m)
        | inr before ↦ elim (record_step-eq_some best step before) [
          | inl (names, same) ↦ inl (rw same names, Memᴰ.head same)
          | inr old ↦ inr old
        ]
      ]

  -- The step that speaks for a stage is a recorded one that names the stage, and no recorded step
  -- that names the stage ranks higher; a stage has such a step as soon as one names it.
  pub index_steps_lem :
      (steps : List Step)
      → All (λ t. named_stage t ≡ some k → AtLeast (index_steps steps k) t) steps
        × ((s : Step) → index_steps steps k ≡ some s → (named_stage s ≡ some k) × Memᴰ s steps)
  unfolding index_steps
  index_steps_lem steps = (AtLeast-All (λ _. none) steps, found)
    where
      found : (s : Step) → index_steps steps k ≡ some s → (named_stage s ≡ some k) × Memᴰ s steps
      found s e = elim (index_steps_from-eq_some (λ _. none) steps e) [ inl h ↦ h | inr h ↦ cc ]
