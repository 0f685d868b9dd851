-- ===== src/Invariants.antt =====
-- What every request keeps, each a property of the tables that Services/Stable carries through all
-- the routes.
pub mod Consistency
pub mod Immutability
pub mod AuditTrail
pub mod Integrity
pub mod Roles
pub mod Isolation
pub mod Moves
pub mod Lifecycle
pub mod Granting
pub mod Ownership
pub mod OneOwner
pub mod Reading
