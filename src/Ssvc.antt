-- ===== src/Ssvc.antt =====
-- backend/app/services/ssvc.py: the action that a finding calls for.
pub mod Tree
pub mod Points
