-- ===== src/Finding.antt =====
-- backend/app/services/finding.py and the enumerations of backend/app/db/enums.py that it uses: what
-- a finding is worth, and in which band it stands.
pub mod Data
pub mod Score
pub mod Priority
pub mod Status
