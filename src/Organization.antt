-- ===== src/Organization.antt =====
-- backend/app/services/organization.py: the members of an organization and their roles.
pub mod Members
pub mod Escalation
pub mod Owners
