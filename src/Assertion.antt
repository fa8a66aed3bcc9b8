-- ===== src/Assertion.antt =====
-- assertion/assertion.go: the signed assertion of a verified identity.
pub mod Claims
pub mod Keys
pub mod Issuer
pub mod Verifier
pub mod RoundTrip
pub mod Jwks
