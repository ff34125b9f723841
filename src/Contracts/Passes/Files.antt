-- ===== src/Contracts/Passes/Files.antt =====
-- The suite of a blob store as a whole, over files.
use omnistash.Base.{◌≡◌}
use omnistash.Errors.{ok}
use omnistash.Env.{Env}
use omnistash.Contracts.Testing.{run_all}
use omnistash.Contracts.Blobs.{exercise_blob_store_contract}
use omnistash.Contracts.Passes.Fs.{Knows, fs}
use omnistash.Contracts.Passes.Writing.{writer_passes}
use omnistash.Contracts.Passes.Reading.{reader_passes}
use omnistash.Contracts.Passes.Deleting.{deleter_passes}
use omnistash.Contracts.Passes.Uploading.{uploader_passes}
use omnistash.Contracts.Passes.Isolating.{isolation_passes}
use omnistash.World.{World, ◌>>=◌}

-- While the operating system answers, a new store over files, with the vacuum started, passes every
-- test of `ExerciseBlobStoreContract`, whatever the UUIDs are that its uploads draw, if each is some
-- text that is not empty and differs from the one before, and the digests of the fixtures are those
-- of their contents.
pub exercise_blob_store_contract_passes :
    (env : Env) (k : Knows env) (w : World) → exercise_blob_store_contract (fs env) w ≡ (ok tt, w)
unfolding exercise_blob_store_contract run_all ◌>>=◌
exercise_blob_store_contract_passes env k w = rw (
  writer_passes env k w,
  reader_passes env k w,
  deleter_passes env k w,
  uploader_passes env k w,
  isolation_passes env k w,
)
