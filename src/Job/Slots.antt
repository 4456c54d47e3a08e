-- ===== src/Job/Slots.antt =====
-- `claim_slot`, `release_slot` and `slot_usage` over the two Redis counters. A pipeline is one atomic
-- step; the expiry of the counters and an unreachable Redis are not modelled.
use cyber.Base.{
  ℕ, suc, ◌-◌, ◌≤◌, ◌≡◌, Bool, true, false, ◌&&◌, arith, if◌then◌else◌, leb, ◌==◌, ◌⊎◌,
}

-- `settings.scanner`
pub record Limits : Type 0 where
  pub max_concurrent_jobs_per_org : ℕ
  pub max_concurrent_jobs_global : ℕ

-- The counters: one for each organization, and the deployment's.
pub record Counters : Type 0 where
  pub of_org : ℕ → ℕ
  pub all_orgs : ℕ

-- `INCR` of both
unfoldable pub take_slot : ℕ → Counters → Counters
take_slot org c = record {
  of_org = λ o. if o == org then suc (c.of_org o) else c.of_org o;
  all_orgs = suc c.all_orgs;
}

-- `release_slot`: `DECR` of both; one that falls below zero is set to zero.
unfoldable pub release_slot : ℕ → Counters → Counters
release_slot org c = record {
  of_org = λ o. if o == org then c.of_org o - 1 else c.of_org o;
  all_orgs = c.all_orgs - 1;
}

-- The test of `claim_slot`, on the counters that its pipeline returned.
unfoldable pub is_admitted : Limits → ℕ → Counters → Bool
is_admitted l org c =
    leb (c.of_org org) l.max_concurrent_jobs_per_org && leb c.all_orgs l.max_concurrent_jobs_global

-- `claim_slot`
unfoldable pub claim_slot : Limits → ℕ → Counters → Bool × Counters
unfolding take_slot release_slot is_admitted
claim_slot l org c =
    let taken = take_slot org c in
    if is_admitted l org taken then (true, taken) else (false, release_slot org taken)

-- `slot_usage`
unfoldable pub slot_usage : ℕ → Counters → ℕ × ℕ
slot_usage org c = (c.of_org org, c.all_orgs)

-- A claim that is refused gives both counters back for every organization; one that is admitted
-- takes one slot of its organization and of the deployment, and leaves both within their limits.
pub claim_slot_lem :
    (l : Limits) (org o : ℕ) (c : Counters)
    → ((claim_slot l org c).0 ≡ false)
        × ((claim_slot l org c).1.of_org o ≡ c.of_org o)
        × ((claim_slot l org c).1.all_orgs ≡ c.all_orgs)
      ⊎ ((claim_slot l org c).0 ≡ true)
        × ((claim_slot l org c).1.of_org org ≡ suc (c.of_org org))
        × ((claim_slot l org c).1.of_org org ≤ l.max_concurrent_jobs_per_org)
        × ((claim_slot l org c).1.all_orgs ≡ suc c.all_orgs)
        × ((claim_slot l org c).1.all_orgs ≤ l.max_concurrent_jobs_global)
unfolding claim_slot
claim_slot_lem l org o c = ground arith

-- A release takes back exactly what a claim took, whoever calls it: when one of two scans of an
-- organization releases its slot twice, neither of the two is counted any more.
pub release_slot_lem :
    (org o : ℕ) (c : Counters)
    → ((release_slot org (take_slot org c)).of_org o ≡ c.of_org o)
      × ((release_slot org (release_slot org (take_slot org (take_slot org c)))).of_org o
          ≡ c.of_org o)
unfolding release_slot take_slot
release_slot_lem org o c = ground arith
