-- ===== src/Handler.antt =====
-- azugo/: the HTTP layer.
pub mod Configuration
pub mod Subject
pub mod Session
pub mod Settings
pub mod Trust
pub mod Build
pub mod Authentication
pub mod Signing
pub mod Finalize
pub mod Routes
pub mod Concurrent
