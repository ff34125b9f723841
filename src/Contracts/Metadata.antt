-- ===== src/Contracts/Metadata.antt =====
-- internal/metastore/metastoretest: the suite of the contract of a metadata store.
pub mod Fixtures
pub mod Namespaces
pub mod Atomicity
pub mod Blobs
pub mod Manifests
pub mod Referrers
use omnistash.Base.{◌∷◌, []}
use omnistash.Contracts.Testing.{Test, run_all}
use omnistash.Contracts.Metadata.Fixtures.{Setup}
use omnistash.Contracts.Metadata.Namespaces.{exercise_namespace_ops_contract}
use omnistash.Contracts.Metadata.Atomicity.{exercise_atomic_contract}
use omnistash.Contracts.Metadata.Blobs.{exercise_blob_ops_contract}
use omnistash.Contracts.Metadata.Manifests.{exercise_manifest_ops_contract}
use omnistash.Contracts.Metadata.Referrers.{exercise_referrer_ops_contract}

-- `ExerciseMetadataStoreContract`
unfoldable pub exercise_metadata_store_contract : Setup → Test
exercise_metadata_store_contract s = run_all (
    exercise_atomic_contract s
    ∷ exercise_namespace_ops_contract s
    ∷ exercise_blob_ops_contract s
    ∷ exercise_manifest_ops_contract s
    ∷ exercise_referrer_ops_contract s
    ∷ [])
