-- ===== src/Correlation.antt =====
-- backend/app/services/correlation.py: which findings of an assessment say the same, and what a model
-- adds to that.
pub mod Groups
pub mod Classes
pub mod Merge
pub mod Grounded
