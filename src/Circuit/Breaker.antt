-- ===== src/Circuit/Breaker.antt =====
-- `CircuitBreaker`. Times are whole seconds of one clock. A key is its value and the time from which
-- it is gone. An unreachable Redis is a parameter of the operations that catch its errors.
use cyber.Base.{
  ℕ, suc, ◌+◌, ◌*◌, Bool, true, false, not, if◌then◌else◌, leb, Option, none, some, max,
}
use cyber.Redis.{Key, read}
use cyber.Base.Errors.{circuit_open, Result, ok, err}

-- `BreakerConfig`; the code never reads its `success_threshold`.
pub record BreakerConfig : Type 0 where
  pub failure_threshold : ℕ
  pub cooldown_seconds : ℕ
  pub failure_window_seconds : ℕ

-- The keys of one provider: `failures`, `open` and `probe`.
pub record Store : Type 0 where
  pub failures : Option Key
  pub opened : Option Key
  pub probe : Option Key

abbrev pub closed_store : Store
closed_store = record { failures = none; opened = none; probe = none }

pub data CircuitState : Type 0 where
  closed opened half_open : CircuitState

-- `int(failures_raw or 0)`
unfoldable pub failure_count : ℕ → Store → ℕ
failure_count now s = elim (read now s.failures) [ none ↦ 0 | some n ↦ n ]

-- `status`, its state; a Redis outage reports `closed`.
unfoldable pub status : (up : Bool) → BreakerConfig → ℕ → Store → CircuitState
status false cfg now s = closed
status true cfg now s = elim (read now s.opened) [
  | none ↦ closed
  | some opened_at ↦ if leb (opened_at + cfg.cooldown_seconds) now then half_open else opened
]

-- `check`: the outcome, and the keys; `up` is for `status`, `sets` for the probe's `SET NX`.
unfoldable pub check : (up sets : Bool) → BreakerConfig → ℕ → Store → Result (Unit {0}) × Store
check up sets cfg now s = elim (status up cfg now s) [
  | closed ↦ (ok tt, s)
  | opened ↦ (err circuit_open, s)
  | half_open ↦ if not sets then (ok tt, s) else elim (read now s.probe) [
    | none ↦ (
      ok tt,
      record s { probe = some (record { value = 1; until = now + max cfg.cooldown_seconds 5 }) },
    )
    | some n ↦ (err circuit_open, s)
  ]
]

-- `record_success`, and `reset`
unfoldable pub record_success : Store → Store
record_success s = closed_store

-- `record_failure`
unfoldable pub record_failure : BreakerConfig → ℕ → Store → Store
record_failure cfg now s =
    let failures = suc (failure_count now s) in
    let counted = some (record { value = failures; until = now + cfg.failure_window_seconds }) in
    if leb cfg.failure_threshold failures
    then record {
      failures = counted;
      opened = some (record { value = now; until = now + cfg.cooldown_seconds * 4 });
      probe = none;
    }
    else record s { failures = counted }
