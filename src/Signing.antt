-- ===== src/Signing.antt =====
-- signing/: the operations around a signature that the card makes.
pub mod HashFunction
pub mod SigningCertificate
pub mod Signer
pub mod SignatureValue
