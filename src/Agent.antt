-- ===== src/Agent.antt =====
-- backend/app/agent: the pipeline of an assessment, the node that asks for an approval and the node that
-- scans.
pub mod Graph
pub mod Pipeline
pub mod Reentry
pub mod Request
pub mod Scan
pub mod Authorized
