-- ===== src/Tests/Jobs.antt =====
-- backend/app/services/job.py with two slots for an organization and three in all.
use cyber.Base.{contains, nat_eq, ◌≡◌, refl, true, false, [], arith}
use cyber.Job.Slots.{Limits, Counters, take_slot, is_admitted}
use cyber.Job.Admission.{
  Pool, admitted, turned_away, given_back, stop, step, hold, refuse, give_back, IsCounted,
  IsBounded, Run_IsBounded, occurrences,
}

abbrev limits : Limits
limits = record { max_concurrent_jobs_per_org = 1; max_concurrent_jobs_global = 3 }

abbrev idle : Counters
idle = record { of_org = λ o. 0; all_orgs = 0 }

abbrev empty : Pool
empty = record { counters = idle; holding = []; refused = [] }

-- Two workers claim for the same organization; the second is refused while the first scan runs.
first_in : is_admitted limits 7 (take_slot 7 idle) ≡ true
unfolding is_admitted take_slot
first_in = refl

second_out : is_admitted limits 7 (take_slot 7 (hold 7 empty).counters) ≡ false
unfolding is_admitted take_slot hold
second_out = refl

empty-IsCounted : IsCounted empty
unfolding IsCounted occurrences
empty-IsCounted = (λ o. refl, refl)

empty-IsBounded : IsBounded limits empty
unfolding IsBounded occurrences
empty-IsBounded = (λ o. omega arith, omega arith)

one_refused : contains 7 (refuse 7 (hold 7 empty)).refused ≡ true
unfolding refuse
one_refused = refl

Run_IsBounded_example :
    IsCounted (give_back 7 (refuse 7 (hold 7 empty)))
    × IsBounded limits (give_back 7 (refuse 7 (hold 7 empty)))
Run_IsBounded_example =
    Run_IsBounded limits
      (step (admitted 7 first_in)
        (step (turned_away 7 second_out) (step (given_back 7 one_refused) stop)))
      empty-IsCounted empty-IsBounded
