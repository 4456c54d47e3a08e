-- ===== src/Job/Admission.antt =====
-- Workers that claim and release slots in any order: never more scans hold a slot than the limits
-- allow.
use cyber.Base.{
  ℕ, suc, ◌+◌, ◌≤◌, ◌≡◌, true, false, arith, if◌then◌else◌, ◌==◌, List, [], ◌∷◌, length, contains,
  nat_eq,
}
use cyber.Job.Slots.{Limits, Counters, take_slot, release_slot, is_admitted}

-- How often an organization occurs.
unfoldable pub occurrences : ℕ → List ℕ → ℕ
occurrences org [] = 0
occurrences org (o ∷ os) = if org == o then suc (occurrences org os) else occurrences org os

-- Without the first occurrence.
unfoldable pub without : ℕ → List ℕ → List ℕ
without org [] = []
without org (o ∷ os) = if org == o then os else o ∷ without org os

-- The counters; the organizations of the scans that hold a slot, and of the claims that are
-- refused and have not yet given their slot back.
pub record Pool : Type 0 where
  pub counters : Counters
  pub holding : List ℕ
  pub refused : List ℕ

unfoldable pub hold : ℕ → Pool → Pool
hold org s = record {
  counters = take_slot org s.counters;
  holding = org ∷ s.holding;
  refused = s.refused;
}

unfoldable pub refuse : ℕ → Pool → Pool
refuse org s = record {
  counters = take_slot org s.counters;
  holding = s.holding;
  refused = org ∷ s.refused;
}

unfoldable pub give_back : ℕ → Pool → Pool
give_back org s = record {
  counters = release_slot org s.counters;
  holding = s.holding;
  refused = without org s.refused;
}

unfoldable pub finish : ℕ → Pool → Pool
finish org s = record {
  counters = release_slot org s.counters;
  holding = without org s.holding;
  refused = s.refused;
}

-- The two halves of `claim_slot`, and `release_slot` after a scan.
pub data Step (l : Limits) : Pool → Pool → Type 0 where
  admitted :
      {s : Pool}
      → (org : ℕ) → is_admitted l org (take_slot org s.counters) ≡ true
      → Step l s (hold org s)
  turned_away :
      {s : Pool}
      → (org : ℕ) → is_admitted l org (take_slot org s.counters) ≡ false
      → Step l s (refuse org s)
  given_back : {s : Pool} → (org : ℕ) → contains org s.refused ≡ true → Step l s (give_back org s)
  finished : {s : Pool} → (org : ℕ) → contains org s.holding ≡ true → Step l s (finish org s)

pub data Run (l : Limits) : Pool → Pool → Type 0 where
  stop : {s : Pool} → Run l s s
  step : {s₁ s₂ s₃ : Pool} → Step l s₁ s₂ → Run l s₂ s₃ → Run l s₁ s₃

-- The counters count the slots that are out.
unfoldable pub IsCounted : Pool → Type 0
IsCounted s =
    ((org : ℕ) → s.counters.of_org org ≡ occurrences org s.holding + occurrences org s.refused)
    × (s.counters.all_orgs ≡ length s.holding + length s.refused)

-- No more scans hold a slot than the limits allow.
unfoldable pub IsBounded : Limits → Pool → Type 0
IsBounded l s =
    ((org : ℕ) → occurrences org s.holding ≤ l.max_concurrent_jobs_per_org)
    × (length s.holding ≤ l.max_concurrent_jobs_global)

length-without :
    (org : ℕ) (os : List ℕ) → contains org os ≡ true → suc (length (without org os)) ≡ length os
unfolding without
length-without org [] h = cc
length-without org (o ∷ os) h = ground (arith, length-without org os)

occurrences-without :
    (org o : ℕ) (os : List ℕ)
    → contains org os ≡ true
    → occurrences o os
      ≡ (if o == org then suc (occurrences o (without org os)) else occurrences o (without org os))
unfolding without occurrences
occurrences-without org o [] h = cc
occurrences-without org o (x ∷ os) h = ground (arith, occurrences-without org o os)

Step-IsCounted : (l : Limits) {s s' : Pool} → Step l s s' → IsCounted s → IsCounted s'
unfolding IsCounted occurrences take_slot release_slot hold refuse give_back finish
Step-IsCounted l (admitted org h) (each, all) = (λ o. ground (arith, each o), omega (arith, all))
Step-IsCounted l (turned_away org h) (each, all) = (λ o. ground (arith, each o), omega (arith, all))
Step-IsCounted l {s} (given_back org h) (each, all) = (
  λ o. ground (arith, each o, occurrences-without org o s.refused h),
  omega (arith, all, length-without org s.refused h),
)
Step-IsCounted l {s} (finished org h) (each, all) = (
  λ o. ground (arith, each o, occurrences-without org o s.holding h),
  omega (arith, all, length-without org s.holding h),
)

Step-IsBounded :
    (l : Limits) {s s' : Pool} → Step l s s' → IsCounted s → IsBounded l s → IsBounded l s'
unfolding IsCounted IsBounded occurrences take_slot is_admitted hold refuse give_back finish
Step-IsBounded l {s} (admitted org h) (each, all) (bound, total) =
    (λ o. ground (arith, each o, bound o, h), ground (arith, all, total, h))
Step-IsBounded l (turned_away org h) counted bounded = bounded
Step-IsBounded l (given_back org h) counted bounded = bounded
Step-IsBounded l {s} (finished org h) counted (bound, total) = (
  λ o. ground (arith, bound o, occurrences-without org o s.holding h),
  omega (arith, total, length-without org s.holding h),
)

-- However the claims, the refusals and the releases of the workers interleave, the counters stay
-- exact and no more scans hold a slot than the limits of an organization and of the deployment,
-- when that was so at the start.
pub Run_IsBounded :
    (l : Limits) {s s' : Pool}
    → Run l s s'
    → IsCounted s
    → IsBounded l s
    → IsCounted s' × IsBounded l s'
Run_IsBounded l stop counted bounded = (counted, bounded)
Run_IsBounded l (step first run) counted bounded =
    Run_IsBounded l run (Step-IsCounted l first counted) (Step-IsBounded l first counted bounded)
