-- ===== src/Blob.antt =====
-- The blob service: internal/blob.
pub mod Service
pub mod Session
pub mod Registered
pub mod Committed
pub mod Finals
pub mod Mounted
pub mod Cleanup
