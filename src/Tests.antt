-- ===== src/Tests.antt =====
-- Concrete inputs: a small platform, and for each result a run of the code to which it applies.
pub mod World
mod Authentication
mod Nonces
mod Certificates
mod Ocsp
mod Signing
mod Assertion
mod Handlers
mod Routes
mod Logins
mod Jwks
mod Concurrent
mod Stores
mod Time
