-- ===== src/Users.antt =====
-- src/modules/users/users.service.ts and src/modules/users/identity-types/identity-types.service.ts.
pub mod Lookup
pub mod Accounts
pub mod Profile
pub mod Listing
pub mod Laws
