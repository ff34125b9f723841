-- ===== src/Contracts/Blobs/Deleter.antt =====
-- internal/blobstore/blobstoretest/deleter.go
use omnistash.Base.{Bool, true, false, Option, none, some, List, [], ◌∷◌}
use omnistash.Errors.{store, StoreError}
use omnistash.Metastore.Tables.{Digest}
use omnistash.Contracts.Stores.{BlobStore}
use omnistash.Contracts.Testing.{Test, must, must_fail, subtest, run_all}
use omnistash.Contracts.Blobs.Fixtures.{
  Setup, default_namespace, test_digest, malformed_digest, seed_if,
}
use omnistash.World.{pure, ◌>>◌}

abbrev pub must_be_absent : BlobStore → Digest → Test
must_be_absent s d = must_fail (store StoreError.blob_unknown) (s.stat_blob default_namespace d)

-- A case of the table of `exerciseDeleteBlobTable`.
pub record DeleteCase : Type 0 where
  pub seed : Bool
  pub digest : Digest
  pub want_err : Option StoreError

abbrev pub wanted_delete : BlobStore → Digest → Option StoreError → Test
wanted_delete s d (some e) = must_fail (store e) (s.delete_blob default_namespace d)
wanted_delete s d none = do must (s.delete_blob default_namespace d); must_be_absent s d

unfoldable pub run_delete : BlobStore → DeleteCase → Test
run_delete s c = do seed_if s c.seed; wanted_delete s c.digest c.want_err

abbrev pub delete_malformed : DeleteCase
delete_malformed = record {
  seed = false;
  digest = malformed_digest;
  want_err = some StoreError.invalid_digest;
}

abbrev pub delete_absent : DeleteCase
delete_absent = record {
  seed = false;
  digest = test_digest;
  want_err = some StoreError.blob_unknown;
}

abbrev pub delete_existing : DeleteCase
delete_existing = record { seed = true; digest = test_digest; want_err = none }

-- A case of the table of `exerciseBatchDeleteBlobsTable`.
pub record BatchCase : Type 0 where
  pub seed : Bool
  pub digests : List Digest
  pub want_err : Option StoreError
  pub want_blobs_absent : List Digest

abbrev pub wanted_batch : BlobStore → List Digest → Option StoreError → Test
wanted_batch s ds (some e) = must_fail (store e) (s.batch_delete_blobs default_namespace ds)
wanted_batch s ds none = must (s.batch_delete_blobs default_namespace ds)

abbrev pub all_absent : BlobStore → List Digest → Test
all_absent s [] = pure tt
all_absent s (d ∷ ds) = do must_be_absent s d; all_absent s ds

unfoldable pub run_batch : BlobStore → BatchCase → Test
run_batch s c = do
  seed_if s c.seed
  wanted_batch s c.digests c.want_err
  all_absent s c.want_blobs_absent

abbrev pub batch_malformed : BatchCase
batch_malformed = record {
  seed = false;
  digests = malformed_digest ∷ [];
  want_err = some StoreError.invalid_digest;
  want_blobs_absent = [];
}

abbrev pub batch_absent : BatchCase
batch_absent = record {
  seed = false;
  digests = test_digest ∷ [];
  want_err = none;
  want_blobs_absent = [];
}

abbrev pub batch_mixed : BatchCase
batch_mixed = record {
  seed = true;
  digests = test_digest ∷ malformed_digest ∷ [];
  want_err = some StoreError.partial_deletion;
  want_blobs_absent = test_digest ∷ [];
}

abbrev pub batch_existing : BatchCase
batch_existing = record {
  seed = true;
  digests = test_digest ∷ [];
  want_err = none;
  want_blobs_absent = test_digest ∷ [];
}

module _ (s : Setup) where
  abbrev on_delete : DeleteCase → Test
  on_delete c = subtest s.new_store (run_delete s.store c)

  abbrev on_batch : BatchCase → Test
  on_batch c = subtest s.new_store (run_batch s.store c)

  -- `exerciseDeleteBlobTable`
  unfoldable pub exercise_delete_blob_table : Test
  exercise_delete_blob_table =
      run_all
        (on_delete delete_malformed ∷ on_delete delete_absent ∷ on_delete delete_existing ∷ [])

  -- `exerciseBatchDeleteBlobsTable`
  unfoldable pub exercise_batch_delete_blobs_table : Test
  exercise_batch_delete_blobs_table = run_all (
      on_batch batch_malformed
      ∷ on_batch batch_absent
      ∷ on_batch batch_mixed
      ∷ on_batch batch_existing
      ∷ [])

  -- `ExerciseBlobDeleterContract`
  unfoldable pub exercise_blob_deleter_contract : Test
  exercise_blob_deleter_contract =
      run_all (exercise_delete_blob_table ∷ exercise_batch_delete_blobs_table ∷ [])
