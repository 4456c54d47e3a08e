-- ===== src/Runner.antt =====
-- backend/app/agent/runner.py: the life of an agent run, from the queue to its outcome.
pub mod Data
pub mod Enter
pub mod Settle
pub mod Advance
pub mod Authority
pub mod Outcomes
pub mod Failing
pub mod Redelivery
