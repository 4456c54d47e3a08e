-- ===== src/Circuit/Opening.antt =====
-- When the breaker opens, for how long it refuses, and that it admits one probe.
use cyber.Base.{
  ℕ, zero, suc, ◌+◌, ◌*◌, ◌≤◌, ◌<◌, ◌≡◌, refl, ap, ◌∙◌, true, arith, if◌then◌else◌, leb, none, some,
  max,
}
use cyber.Base.Errors.{circuit_open, ok, err}
use cyber.Redis.{read}
use cyber.Circuit.Breaker.{
  BreakerConfig, Store, closed_store, closed, opened, failure_count, status, check, record_failure,
}

-- A burst of failures, all at one time.
unfoldable pub fail_times : BreakerConfig → (now n : ℕ) → Store → Store
fail_times cfg now zero s = s
fail_times cfg now (suc n) s = record_failure cfg now (fail_times cfg now n s)

failure_count-record_failure :
    (cfg : BreakerConfig) (now : ℕ) (s : Store)
    → 0 < cfg.failure_window_seconds
    → failure_count now (record_failure cfg now s) ≡ suc (failure_count now s)
unfolding record_failure failure_count read
failure_count-record_failure cfg now s window = ground arith

failure_count-fail_times :
    (cfg : BreakerConfig) (now n : ℕ)
    → 0 < cfg.failure_window_seconds
    → failure_count now (fail_times cfg now n closed_store) ≡ n
unfolding fail_times failure_count read
failure_count-fail_times cfg now zero window = refl
failure_count-fail_times cfg now (suc n) window =
    failure_count-record_failure cfg now (fail_times cfg now n closed_store) window
    ∙ ap suc (failure_count-fail_times cfg now n window)

status-record_failure :
    (cfg : BreakerConfig) (now : ℕ) (s : Store)
    → 0 < cfg.cooldown_seconds
    → status true cfg now (record_failure cfg now s) ≡ (
        if leb cfg.failure_threshold (suc (failure_count now s))
        then opened
        else status true cfg now s)
unfolding status read record_failure
status-record_failure cfg now s cooldown = ground arith

-- After a burst of failures at one time, of a circuit that had counted none, the circuit is open
-- exactly when there were as many as the threshold and closed otherwise, provided that the
-- threshold, the window of the count and the cooldown are not zero.
pub opens_at_threshold :
    (cfg : BreakerConfig) (now n : ℕ)
    → 0 < cfg.failure_window_seconds
    → 0 < cfg.failure_threshold
    → 0 < cfg.cooldown_seconds
    → status true cfg now (fail_times cfg now n closed_store)
      ≡ (if leb cfg.failure_threshold n then opened else closed)
unfolding fail_times status read
opens_at_threshold cfg now zero window threshold cooldown = ground arith
opens_at_threshold cfg now (suc n) window threshold cooldown =
    let before = fail_times cfg now n closed_store in
    ground (
      arith,
      status-record_failure cfg now before cooldown,
      failure_count-fail_times cfg now n window,
      opens_at_threshold cfg now n window threshold cooldown,
    )

-- The keys of a circuit that opened at a time.
abbrev tripped : BreakerConfig → (t₀ n : ℕ) → Store
tripped cfg t₀ n = record {
  failures = some (record { value = n; until = t₀ + cfg.failure_window_seconds });
  opened = some (record { value = t₀; until = t₀ + cfg.cooldown_seconds * 4 });
  probe = none;
}

record_failure-tripped :
    (cfg : BreakerConfig) (t₀ : ℕ) (s : Store)
    → cfg.failure_threshold ≤ suc (failure_count t₀ s)
    → record_failure cfg t₀ s ≡ tripped cfg t₀ (suc (failure_count t₀ s))
unfolding record_failure
record_failure-tripped cfg t₀ s reached = ground (arith, reached)

-- The keys of a circuit whose probe went out.
abbrev probing : BreakerConfig → (t₀ n t : ℕ) → Store
probing cfg t₀ n t = record (tripped cfg t₀ n) {
  probe = some (record { value = 1; until = t + max cfg.cooldown_seconds 5 });
}

check-probing :
    (cfg : BreakerConfig) (t₀ n t : ℕ)
    → t₀ + cfg.cooldown_seconds ≤ t
    → t < t₀ + cfg.cooldown_seconds * 4
    → check true true cfg t (tripped cfg t₀ n) ≡ (ok tt, probing cfg t₀ n t)
unfolding check status read
check-probing cfg t₀ n t over kept = ground arith

check_refused :
    (cfg : BreakerConfig) (t₀ n t t' : ℕ)
    → t₀ + cfg.cooldown_seconds ≤ t'
    → t' < t + cfg.cooldown_seconds
    → t' < t₀ + cfg.cooldown_seconds * 4
    → check true true cfg t' (probing cfg t₀ n t) ≡ (err circuit_open, probing cfg t₀ n t)
unfolding check status read
check_refused cfg t₀ n t t' over soon kept = ground arith

-- After the failure that opened the circuit and its cooldown, one check is let through, and a second
-- one within another cooldown is refused, before the circuit forgets that it is open, four cooldowns
-- after it opened, and while Redis can be reached.
pub probes_once :
    (cfg : BreakerConfig) (t₀ t t' : ℕ) (s : Store)
    → cfg.failure_threshold ≤ suc (failure_count t₀ s)
    → t₀ + cfg.cooldown_seconds ≤ t
    → t ≤ t'
    → t' < t + cfg.cooldown_seconds
    → t' < t₀ + cfg.cooldown_seconds * 4
    → ((check true true cfg t (record_failure cfg t₀ s)).0 ≡ ok tt)
      × ((check true true cfg t' (check true true cfg t (record_failure cfg t₀ s)).1).0
          ≡ err circuit_open)
probes_once cfg t₀ t t' s reached over later soon kept =
    let n = suc (failure_count t₀ s) in
    rw
      (
        record_failure-tripped cfg t₀ s reached,
        check-probing cfg t₀ n t over (omega arith),
        check_refused cfg t₀ n t t' (omega arith) soon kept,
      )
      (refl, refl)

check_open :
    (cfg : BreakerConfig) (t₀ n t : ℕ)
    → t < t₀ + cfg.cooldown_seconds
    → check true true cfg t (tripped cfg t₀ n) ≡ (err circuit_open, tripped cfg t₀ n)
unfolding check status read
check_open cfg t₀ n t within = ground arith

-- From the failure that opens the circuit until its cooldown is over, every check is refused and
-- writes nothing, while Redis can be reached.
pub refuses_while_open :
    (cfg : BreakerConfig) (t₀ t : ℕ) (s : Store)
    → cfg.failure_threshold ≤ suc (failure_count t₀ s)
    → t < t₀ + cfg.cooldown_seconds
    → check true true cfg t (record_failure cfg t₀ s) ≡ (err circuit_open, record_failure cfg t₀ s)
refuses_while_open cfg t₀ t s reached within =
    rw (record_failure-tripped cfg t₀ s reached)
      (check_open cfg t₀ (suc (failure_count t₀ s)) t within)
