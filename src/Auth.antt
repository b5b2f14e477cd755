-- ===== src/Auth.antt =====
-- Who makes a request, and what a credential allows: crates/api/src/request_auth.rs,
-- crates/api/src/scopes.rs, crates/auth, and the routes auth.rs and tokens.rs of crates/api.
pub mod Identity
pub mod Scopes
pub mod Granted
pub mod Credentials
pub mod Mfa
pub mod Sessions
pub mod Challenge
pub mod Once
pub mod Enrolled
pub mod Tokens
pub mod Bearer
mod Runs
mod Tests
