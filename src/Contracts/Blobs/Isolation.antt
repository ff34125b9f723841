-- ===== src/Contracts/Blobs/Isolation.antt =====
-- internal/blobstore/blobstoretest/namespace.go
use omnistash.Base.{[], ◌∷◌, eqb}
use omnistash.Errors.{store, StoreError}
use omnistash.Contracts.Stores.{BlobStore}
use omnistash.Contracts.Testing.{Test, assert, must, must_fail, subtest, run_all}
use omnistash.Contracts.Blobs.Fixtures.{
  Setup, default_namespace, other_namespace, test_content, test_digest, reader, size_of, seed_blob,
}
use omnistash.World.{pure, ◌>>=◌, ◌>>◌}

module _ (s : BlobStore) where
  unfoldable pub blob_elsewhere : Test
  blob_elsewhere = do
    seed_blob s default_namespace test_digest test_content
    must_fail (store StoreError.blob_unknown) (s.get_blob other_namespace test_digest)

  unfoldable pub blob_in_two : Test
  blob_in_two = do
    must (s.put_blob default_namespace test_digest (size_of test_content) (reader test_content))
    must (s.put_blob other_namespace test_digest (size_of test_content) (reader test_content))
    size_default ← must (s.stat_blob default_namespace test_digest)
    assert (eqb size_default 2)
    must (s.stat_blob other_namespace test_digest)
    pure tt

  unfoldable pub session_elsewhere : Test
  session_elsewhere = do
    id ← must (s.initiate_blob_upload default_namespace)
    must_fail (store StoreError.blob_upload_unknown) (s.get_blob_upload_offset other_namespace id)

module _ (s : Setup) where
  abbrev on_new : (BlobStore → Test) → Test
  on_new t = subtest s.new_store (t s.store)

  -- `ExerciseNamespaceIsolationContract`
  unfoldable pub exercise_namespace_isolation_contract : Test
  exercise_namespace_isolation_contract =
      run_all (on_new blob_elsewhere ∷ on_new blob_in_two ∷ on_new session_elsewhere ∷ [])
