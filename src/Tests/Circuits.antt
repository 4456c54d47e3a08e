-- ===== src/Tests/Circuits.antt =====
-- backend/app/integrations/circuit.py with its default configuration.
use cyber.Base.{suc, ◌≤◌, ◌≡◌, true, arith, some}
use cyber.Base.Errors.{circuit_open, ok, err}
use cyber.Redis.{read}
use cyber.Circuit.Breaker.{BreakerConfig, closed_store, Store, check, record_failure, failure_count}
use cyber.Circuit.Opening.{probes_once}

abbrev config : BreakerConfig
config = record { failure_threshold = 5; cooldown_seconds = 60; failure_window_seconds = 300 }

abbrev shaky : Store
shaky = record closed_store { failures = some (record { value = 4; until = 1100 }) }

at_the_edge : config.failure_threshold ≤ suc (failure_count 1000 shaky)
unfolding failure_count read
at_the_edge = omega arith

probes_once_example :
    ((check true true config 1060 (record_failure config 1000 shaky)).0 ≡ ok tt)
    × ((check true true config 1070
          (check true true config 1060 (record_failure config 1000 shaky)).1).0
        ≡ err circuit_open)
probes_once_example =
    probes_once config 1000 1060 1070 shaky at_the_edge (omega arith) (omega arith) (omega arith)
      (omega arith)
