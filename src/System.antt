-- ===== src/System.antt =====
-- Requests one after the other, through all services.
pub mod History
pub mod Revoked
pub mod AuditTrail
pub mod Entrance
pub mod Blocking
pub mod FirstSteps
pub mod PasswordReset
pub mod Present
pub mod Privileges
pub mod SignedOut
pub mod Spent
pub mod UniqueEmails
mod Stable
mod Services
mod Tables
mod Accounts
mod SignIn
mod Flows
mod Access
mod Endpoints
