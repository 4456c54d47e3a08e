-- ===== src/Assessment.antt =====
-- backend/app/services/assessment.py and backend/app/db/models/assessment.py: an assessment's row
-- and the operations that move it.
pub mod Status
pub mod Stage
pub mod Service
pub mod Transition
pub mod Lifecycle
pub mod Stopping
