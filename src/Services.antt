-- ===== src/Services.antt =====
-- app/services: hashing, audit recording, the skill lifecycle and activation.
pub mod Hashing
pub mod Audit
pub mod Newest
pub mod Skills
pub mod Grants
pub mod Activation
pub mod Discipline
pub mod Walk
pub mod Stable
pub mod Visibility
pub mod Settled
pub mod Barred
