-- ===== src/Contracts/Passes.antt =====
-- What the two stores make of their contract suites.
pub mod Sqlite
pub mod Names
pub mod Blobs
pub mod Manifests
pub mod Referrers
pub mod Metadata
pub mod Fs
pub mod Writing
pub mod Reading
pub mod Deleting
pub mod Isolating
pub mod Sessions
pub mod Uploading
pub mod Files
