-- ===== src/Ocsp.antt =====
-- Package ocsp: revocation checks of a certificate against an OCSP responder.
pub mod Errors
pub mod Options
pub mod Request
pub mod Responder
pub mod Freshness
pub mod Check
