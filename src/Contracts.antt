-- ===== src/Contracts.antt =====
-- The contracts that the interfaces of the two stores make: internal/metastore/contract.go and
-- internal/blobstore/contract.go, their contract suites internal/metastore/metastoretest and
-- internal/blobstore/blobstoretest, and the implementations that are to pass them.
pub mod Testing
pub mod Stores
pub mod Metadata
pub mod Blobs
pub mod Passes
