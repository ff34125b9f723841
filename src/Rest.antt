-- ===== src/Rest.antt =====
-- The HTTP layer: rest/.
pub mod Status
pub mod Replies
pub mod Paths
pub mod LastIndex
pub mod Splits
pub mod Rejoins
pub mod Decimal
pub mod Ranges
pub mod Parsed
pub mod Http
pub mod Answers
pub mod Handled
pub mod Blobs
pub mod Uploads
pub mod ManifestRoutes
pub mod NamespaceRoutes
pub mod Mux
pub mod Router
pub mod Served
pub mod Shadowed
pub mod Transfers
pub mod Progress
pub mod RangedGets
pub mod Pushes
pub mod Referred
pub mod Removed
pub mod PushedManifests
