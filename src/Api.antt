-- ===== src/Api.antt =====
-- app/api: authentication dependencies, routes and error responses.
pub mod Routes
pub mod Auth
pub mod Authenticated
pub mod Login
pub mod Errors
pub mod Opaque
pub mod Confidential
