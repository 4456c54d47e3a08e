-- ===== src/Tests/Limiters.antt =====
-- The limiters of backend/app/core/redis_client.py.
use cyber.Base.{ℕ, ◌≤◌, refl, none, Option, [], ◌∷◌, arith}
use cyber.Redis.{Key}
use cyber.Redis.Limits.{admitted, admitted_bounded}

abbrev no_counters : ℕ → Option Key
no_counters b = none

-- Three requests in the second minute, of which two may pass.
admitted_bounded_example : admitted 2 60 (60 ∷ 75 ∷ 119 ∷ []) no_counters ≤ 2
admitted_bounded_example = admitted_bounded 2 60 1 60 (60 ∷ 75 ∷ 119 ∷ []) no_counters refl (
  (refl, omega arith, omega arith),
  ((refl, omega arith, omega arith), ((refl, omega arith, omega arith), tt)),
)
