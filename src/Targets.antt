-- ===== src/Targets.antt =====
-- backend/app/core/targets.py: what an operator or a model names as a target, and the policy on it.
pub mod Classify
pub mod Data
pub mod Policy
pub mod Ranges
