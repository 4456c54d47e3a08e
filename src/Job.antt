-- ===== src/Job.antt =====
-- backend/app/services/job.py: the slots that bound how many scans run at once, and the life of one
-- scanner job.
pub mod Cancel
pub mod Data
pub mod Life
pub mod Slots
pub mod Terminal
pub mod Admission
