-- ===== src/Contracts/Blobs.antt =====
-- internal/blobstore/blobstoretest: the suite of the contract of a blob store.
pub mod Fixtures
pub mod Writer
pub mod Reader
pub mod Deleter
pub mod Uploader
pub mod Isolation
use omnistash.Base.{◌∷◌, []}
use omnistash.Contracts.Testing.{Test, run_all}
use omnistash.Contracts.Blobs.Fixtures.{Setup}
use omnistash.Contracts.Blobs.Writer.{exercise_blob_writer_contract}
use omnistash.Contracts.Blobs.Reader.{exercise_blob_reader_contract}
use omnistash.Contracts.Blobs.Deleter.{exercise_blob_deleter_contract}
use omnistash.Contracts.Blobs.Uploader.{exercise_blob_uploader_contract}
use omnistash.Contracts.Blobs.Isolation.{exercise_namespace_isolation_contract}

-- `ExerciseBlobStoreContract`
unfoldable pub exercise_blob_store_contract : Setup → Test
exercise_blob_store_contract s = run_all (
    exercise_blob_writer_contract s
    ∷ exercise_blob_reader_contract s
    ∷ exercise_blob_deleter_contract s
    ∷ exercise_blob_uploader_contract s
    ∷ exercise_namespace_isolation_contract s
    ∷ [])
