-- ===== src/Auth.antt =====
-- backend/app/services/auth.py and backend/app/core/security.py: passwords, the lockout of an account,
-- tokens and their rotation, and links that are spent once. The clock counts milliseconds, the times
-- in a token count seconds.
pub mod Authority
pub mod Data
pub mod Lockout
pub mod Login
pub mod Rotation
pub mod Session
pub mod Password
pub mod Redeem
