-- ===== src/Nonce.antt =====
-- Challenge nonces: their stores and their generator.
pub mod Challenge
pub mod Memory
pub mod Store
pub mod Generator
pub mod Redis
