-- ===== src/Approval.antt =====
-- backend/app/services/approval.py and backend/app/db/models/assessment.py: the human gate in
-- front of the scanners.
pub mod Data
pub mod Narrow
pub mod Gate
pub mod Once
pub mod Scope
pub mod Final
