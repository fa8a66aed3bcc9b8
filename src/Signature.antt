-- ===== src/Signature.antt =====
-- Package signature: the algorithms of the token format and the verification of a token signature.
pub mod Algorithm
pub mod Verify
