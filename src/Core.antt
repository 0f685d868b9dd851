-- ===== src/Core.antt =====
-- app/core: the enumerations, the error envelope and the tool allowlist.
pub mod Enums
pub mod Errors
pub mod Tools
pub mod Allowlist
pub mod Accepted
pub mod Rejected
pub mod Security
