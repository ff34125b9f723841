-- ===== src/Metastore.antt =====
-- The metadata store: internal/metastore/contract.go and internal/metastore/sqlite, over the schema
-- of migration/sqlite.go. The tables and the statements are here; `Tx` runs them, `Store` is the
-- store handle.
pub mod Tables
pub mod Sql
pub mod Tx
pub mod Store
pub mod Handle
pub mod Keeps
pub mod References
pub mod Valid
pub mod Integrity
pub mod Atomic
pub mod Blobs
pub mod Manifests
pub mod Listing
