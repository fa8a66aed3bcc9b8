-- ===== src/Certificate.antt =====
-- Package certificate: the X.509 data that the program reads, and the checks on it.
pub mod X509
pub mod Checks
pub mod Policy
pub mod Trust
pub mod Subject
