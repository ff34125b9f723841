-- ===== src/Contracts/Blobs/Uploader.antt =====
-- internal/blobstore/blobstoretest/stream.go
use omnistash.Base.{ℕ, String, not, [], ◌∷◌, ◌==◌, string_eq, eqb, length}
use omnistash.Base.Int.{ℤ, pos, negsuc}
use omnistash.Errors.{store, StoreError}
use omnistash.Metastore.Tables.{Digest}
use omnistash.Blobstore.Files.{Bytes}
use omnistash.Contracts.Stores.{BlobStore}
use omnistash.Contracts.Testing.{Test, assert, must, must_fail, subtest, run_all}
use omnistash.Contracts.Blobs.Fixtures.{
  Setup, default_namespace, test_content, test_digest, zero_digest, empty_digest, malformed_digest,
  fake_upload_id, opening, closing, equal_bytes, reader, size_of, seed_test_blob,
}
use omnistash.World.{Proc, pure, ◌>>=◌, ◌>>◌}

module _ (s : BlobStore) where
  -- `s.InitiateBlobUpload(DefaultNamespace)`, and the other calls in that namespace
  abbrev pub initiate : Proc String
  initiate = s.initiate_blob_upload default_namespace

  abbrev pub append : String → ℤ → Bytes → Proc ℕ
  append id offset b = s.append_blob_chunk default_namespace id offset (reader b)

  abbrev pub offset_of : String → Proc ℕ
  offset_of id = s.get_blob_upload_offset default_namespace id

  abbrev pub finalize : String → Digest → ℤ → Test
  finalize id d size = s.finalize_blob_upload default_namespace id d size

  abbrev pub cancel : String → Test
  cancel id = s.cancel_blob_upload default_namespace id

  -- `requireOffset`
  unfoldable pub require_offset : String → ℕ → Test
  require_offset id want = do offset ← must (offset_of id); assert (eqb offset want)

  -- `assertSessionRemoved`
  unfoldable pub assert_session_removed : String → Test
  assert_session_removed id = do
    must_fail (store StoreError.blob_upload_unknown) (offset_of id)
    must_fail (store StoreError.blob_upload_unknown) (append id (pos 0) test_content)
    must_fail (store StoreError.blob_upload_unknown)
        (finalize id test_digest (size_of test_content))

  -- The end of a successful upload: the blob is there with its size and its content.
  unfoldable pub assert_committed : Digest → Bytes → Test
  assert_committed d b = do
    got ← must (s.get_blob default_namespace d)
    assert (eqb got.1 (length b))
    assert (equal_bytes got.0 b)

  unfoldable pub unique_ids : Test
  unique_ids = do
    id1 ← must initiate
    assert (not (id1 == ""))
    id2 ← must initiate
    assert (not (id1 == id2))

  unfoldable pub offset_unknown : Test
  offset_unknown = must_fail (store StoreError.blob_upload_unknown) (offset_of fake_upload_id)

  unfoldable pub offset_fresh : Test
  offset_fresh = do id ← must initiate; require_offset id 0

  unfoldable pub append_unknown : Test
  append_unknown =
      must_fail (store StoreError.blob_upload_unknown) (append fake_upload_id (pos 0) test_content)

  unfoldable pub append_negative : Test
  append_negative = do
    id ← must initiate
    must_fail (store StoreError.blob_upload_invalid) (append id (negsuc 0) test_content)
    require_offset id 0

  unfoldable pub append_wrong_offset : Test
  append_wrong_offset = do
    id ← must initiate
    must_fail (store StoreError.range_not_satisfiable) (append id (pos 5) test_content)
    require_offset id 0

  unfoldable pub append_two : Test
  append_two = do
    id ← must initiate
    size ← must (append id (pos 0) opening)
    assert (eqb size 1)
    require_offset id 1
    size' ← must (append id (pos 1) closing)
    assert (eqb size' 2)
    require_offset id 2

  unfoldable pub finalize_unknown : Test
  finalize_unknown =
      must_fail (store StoreError.blob_upload_unknown)
        (finalize fake_upload_id test_digest (size_of test_content))

  unfoldable pub finalize_longer : Test
  finalize_longer = do
    id ← must initiate
    must (append id (pos 0) test_content)
    must_fail (store StoreError.size_invalid) (finalize id test_digest (pos 3))
    must (offset_of id)
    must (finalize id test_digest (size_of test_content))
    assert_session_removed id

  unfoldable pub finalize_mismatch : Test
  finalize_mismatch = do
    id ← must initiate
    must (append id (pos 0) test_content)
    must_fail (store StoreError.digest_mismatch) (finalize id zero_digest (size_of test_content))
    must (offset_of id)
    must (cancel id)
    assert_session_removed id

  unfoldable pub finalize_malformed : Test
  finalize_malformed = do
    id ← must initiate
    must (append id (pos 0) test_content)
    must_fail (store StoreError.invalid_digest)
        (finalize id malformed_digest (size_of test_content))
    must (offset_of id)
    pure tt

  unfoldable pub finalize_committed : Test
  finalize_committed = do
    seed_test_blob s
    id ← must initiate
    must (append id (pos 0) test_content)
    must_fail (store StoreError.blob_committed) (finalize id test_digest (size_of test_content))
    must_fail (store StoreError.blob_upload_unknown) (offset_of id)

  -- `exerciseMonolithicUpload`
  unfoldable pub upload_whole : Test
  upload_whole = do
    id ← must initiate
    must (append id (pos 0) test_content)
    must (finalize id test_digest (size_of test_content))
    assert_session_removed id
    assert_committed test_digest test_content

  -- `exerciseChunkedUpload`
  unfoldable pub upload_chunks : Test
  upload_chunks = do
    id ← must initiate
    size ← must (append id (pos 0) opening)
    assert (eqb size 1)
    size' ← must (append id (pos 1) closing)
    assert (eqb size' 2)
    must (finalize id test_digest (size_of test_content))
    assert_session_removed id
    assert_committed test_digest test_content

  unfoldable pub cancel_unknown : Test
  cancel_unknown = must (cancel fake_upload_id)

  unfoldable pub cancel_twice : Test
  cancel_twice = do
    id ← must initiate
    must (cancel id)
    assert_session_removed id
    must (cancel id)

  -- `exerciseEmptyBlobUpload`
  unfoldable pub upload_empty : Test
  upload_empty = do
    id ← must initiate
    must (finalize id empty_digest (pos 0))
    assert_session_removed id
    assert_committed empty_digest []

module _ (s : Setup) where
  abbrev on_new : (BlobStore → Test) → Test
  on_new t = subtest s.new_store (t s.store)

  -- `exerciseInitiateBlobUpload` and `exerciseGetBlobUploadOffset`
  unfoldable pub exercise_initiate_blob_upload : Test
  exercise_initiate_blob_upload = on_new unique_ids

  unfoldable pub exercise_get_blob_upload_offset : Test
  exercise_get_blob_upload_offset = run_all (on_new offset_unknown ∷ on_new offset_fresh ∷ [])

  -- `exerciseAppendBlobChunk`
  unfoldable pub exercise_append_blob_chunk : Test
  exercise_append_blob_chunk = run_all (
      on_new append_unknown
      ∷ on_new append_negative
      ∷ on_new append_wrong_offset
      ∷ on_new append_two
      ∷ [])

  -- `exerciseFinalizeBlobUploadErrors`
  unfoldable pub exercise_finalize_blob_upload_errors : Test
  exercise_finalize_blob_upload_errors = run_all (
      on_new finalize_unknown
      ∷ on_new finalize_longer
      ∷ on_new finalize_mismatch
      ∷ on_new finalize_malformed
      ∷ on_new finalize_committed
      ∷ [])

  -- `exerciseCancelUpload`
  unfoldable pub exercise_cancel_upload : Test
  exercise_cancel_upload = run_all (on_new cancel_unknown ∷ on_new cancel_twice ∷ [])

  -- `ExerciseBlobUploaderContract`
  unfoldable pub exercise_blob_uploader_contract : Test
  exercise_blob_uploader_contract = run_all (
      exercise_initiate_blob_upload
      ∷ exercise_get_blob_upload_offset
      ∷ exercise_append_blob_chunk
      ∷ exercise_finalize_blob_upload_errors
      ∷ on_new upload_whole
      ∷ on_new upload_chunks
      ∷ exercise_cancel_upload
      ∷ on_new upload_empty
      ∷ [])
