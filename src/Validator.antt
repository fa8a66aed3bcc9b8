-- ===== src/Validator.antt =====
-- The validator of authentication tokens, its builder, and the origins that it accepts.
pub mod Origin
pub mod Validate
pub mod Builder
