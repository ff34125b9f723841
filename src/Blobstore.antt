-- ===== src/Blobstore.antt =====
-- The blob store on the file system: internal/blobstore and internal/blobstore/fs.
pub mod Files
pub mod Os
pub mod Digests
pub mod Writer
pub mod Upload
pub mod Reader
pub mod Deleter
pub mod Contents
pub mod Put
pub mod Left
pub mod Storing
pub mod Uploads
pub mod Commits
pub mod Deletes
pub mod Ranges
pub mod Roundtrips
pub mod Vacuum
pub mod Running
pub mod Chunks
pub mod Sweep
pub mod Spares
pub mod Batches
pub mod Emptied
pub mod Swept
pub mod Cleared
