-- ===== src/Contracts/Passes/Metadata.antt =====
-- The suite of a metadata store as a whole, over SQLite.
use omnistash.Base.{◌≡◌, ◌≢◌}
use omnistash.Errors.{ok}
use omnistash.Contracts.Testing.{run_all}
use omnistash.Contracts.Metadata.{exercise_metadata_store_contract}
use omnistash.Contracts.Metadata.Fixtures.{Digests}
use omnistash.Contracts.Passes.Sqlite.{sqlite}
use omnistash.Contracts.Passes.Names.{atomic_passes, names_pass}
use omnistash.Contracts.Passes.Blobs.{blobs_pass}
use omnistash.Contracts.Passes.Manifests.{manifests_pass}
use omnistash.Contracts.Passes.Referrers.{referrers_pass}
use omnistash.World.{World, ◌>>=◌}

-- While the engine answers, a store over SQLite passes the tests of ExerciseMetadataStoreContract, at
-- any time and whatever the digests of its fixtures are, if the two referrers have different ones;
-- the transactions of the five concurrent workers of the serialization test are run one after
-- another, and the panic of the panic test is an error that Atomic recovers and passes on.
pub exercise_metadata_store_contract_passes :
    (d : Digests) (w : World)
    → d.referrer_2 ≢ d.referrer
    → exercise_metadata_store_contract (sqlite d) w ≡ (ok tt, w)
unfolding exercise_metadata_store_contract run_all ◌>>=◌
exercise_metadata_store_contract_passes d w differ = rw (
  atomic_passes w d,
  names_pass w d,
  blobs_pass d w,
  manifests_pass d w,
  referrers_pass d w differ,
)
