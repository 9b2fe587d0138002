-- ===== src/Auth.antt =====
-- src/modules/auth/auth.service.ts, method by method.
pub mod SignIn
pub mod TwoFactor
pub mod Passwords
pub mod Logout
pub mod Refresh
pub mod External
