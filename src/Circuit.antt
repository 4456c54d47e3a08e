-- ===== src/Circuit.antt =====
-- backend/app/integrations/circuit.py: the circuit breaker whose state is three Redis keys.
pub mod Breaker
pub mod Opening
