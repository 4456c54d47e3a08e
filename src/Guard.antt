-- ===== src/Guard.antt =====
-- backend/app/llm/guard.py: what a model's text may claim.
pub mod Claims
pub mod Sourced
