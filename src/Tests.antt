-- ===== src/Tests.antt =====
-- Runs of the modelled code on concrete inputs, and the theorems at inputs that meet their
-- hypotheses.
mod Identities
mod Tenants
mod Tracker
mod Assessments
mod Approvals
mod Findings
mod Ssvcs
mod Jobs
mod Circuits
mod Lives
mod Tokens
mod Auths
mod Ranges
mod Scans
mod Members
mod Prompts
mod Limiters
mod Queues
mod Runs
mod Workers
mod Streams
mod Correlations
mod Guards
mod Requests
