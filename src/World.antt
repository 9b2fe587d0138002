-- ===== src/World.antt =====
-- The state that the services share, and the calls that they are made of. A service method is an
-- `Action`: it takes the world to an answer or a thrown error and the world after it.
mod Actions
pub mod Rules
pub mod Outcomes
pub mod Invariants
unfoldable pub use Actions.*
