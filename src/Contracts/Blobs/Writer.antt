-- ===== src/Contracts/Blobs/Writer.antt =====
-- internal/blobstore/blobstoretest/writer.go
use omnistash.Base.{ℕ, Bool, true, false, Option, none, some, [], ◌∷◌, eqb}
use omnistash.Base.Int.{ℤ, pos, negsuc}
use omnistash.Errors.{store, StoreError}
use omnistash.Metastore.Tables.{Digest}
use omnistash.Contracts.Stores.{BlobStore}
use omnistash.Contracts.Testing.{Test, assert, must, must_fail, subtest, run_all}
use omnistash.Contracts.Blobs.Fixtures.{
  Setup, default_namespace, test_content, test_digest, test_digest_512, zero_digest,
  malformed_digest, reader, size_of, seed_if,
}
use omnistash.World.{Proc, pure, ◌>>=◌, ◌>>◌}

-- What a test case wants of a call that returns a size.
pub data Want : Type 0 where
  size : ℕ → Want
  failure : StoreError → Want

-- The size beside an error is not modelled.
abbrev pub wanted : Want → Proc ℕ → Test
wanted (size n) call = do got ← must call; assert (eqb got n)
wanted (failure e) call = must_fail (store e) call

-- A case of the table of `exercisePutBlobTable`; its content is always `TestContent`.
pub record PutCase : Type 0 where
  pub seed : Bool
  pub digest : Digest
  pub size : ℤ
  pub want : Want
  pub want_blob_absent : Option Digest

abbrev pub absent_if : BlobStore → Option Digest → Test
absent_if s none = pure tt
absent_if s (some d) = must_fail (store StoreError.blob_unknown) (s.stat_blob default_namespace d)

unfoldable pub run_put : BlobStore → PutCase → Test
run_put s c = do
  seed_if s c.seed
  wanted c.want (s.put_blob default_namespace c.digest c.size (reader test_content))
  absent_if s c.want_blob_absent

abbrev pub refused : Digest → ℤ → StoreError → PutCase
refused d n e = record {
  seed = false;
  digest = d;
  size = n;
  want = failure e;
  want_blob_absent = none;
}

abbrev pub stored : Digest → PutCase
stored d = record {
  seed = false;
  digest = d;
  size = size_of test_content;
  want = Want.size 2;
  want_blob_absent = none;
}

abbrev pub put_malformed : PutCase
put_malformed = refused malformed_digest (size_of test_content) StoreError.invalid_digest

abbrev pub put_negative : PutCase
put_negative = refused test_digest (negsuc 0) StoreError.size_invalid

abbrev pub put_longer : PutCase
put_longer = refused test_digest (pos 3) StoreError.size_invalid

abbrev pub put_mismatch : PutCase
put_mismatch = record (refused zero_digest (size_of test_content) StoreError.digest_mismatch) {
  want_blob_absent = some zero_digest;
}

abbrev pub put_committed : PutCase
put_committed = record (refused test_digest (size_of test_content) StoreError.blob_committed) {
  seed = true;
}

-- "same content is independently committable under a different digest algorithm"
unfoldable pub put_two_algorithms : BlobStore → Test
put_two_algorithms s = do
  must (s.put_blob default_namespace test_digest (size_of test_content) (reader test_content))
  must (s.put_blob default_namespace test_digest_512 (size_of test_content) (reader test_content))
  size_256 ← must (s.stat_blob default_namespace test_digest)
  assert (eqb size_256 2)
  size_512 ← must (s.stat_blob default_namespace test_digest_512)
  assert (eqb size_512 2)

-- A case of the table of `exerciseStatBlobTable`.
pub record StatCase : Type 0 where
  pub seed : Bool
  pub digest : Digest
  pub want : Want

unfoldable pub run_stat : BlobStore → StatCase → Test
run_stat s c = do seed_if s c.seed; wanted c.want (s.stat_blob default_namespace c.digest)

abbrev pub stat_malformed : StatCase
stat_malformed = record {
  seed = false;
  digest = malformed_digest;
  want = failure StoreError.invalid_digest;
}

abbrev pub stat_unknown : StatCase
stat_unknown = record { seed = false; digest = test_digest; want = failure StoreError.blob_unknown }

abbrev pub stat_known : StatCase
stat_known = record { seed = true; digest = test_digest; want = Want.size 2 }

module _ (s : Setup) where
  abbrev on_put : PutCase → Test
  on_put c = subtest s.new_store (run_put s.store c)

  abbrev on_stat : StatCase → Test
  on_stat c = subtest s.new_store (run_stat s.store c)

  -- `exercisePutBlobTable`
  unfoldable pub exercise_put_blob_table : Test
  exercise_put_blob_table = run_all (
      on_put put_malformed
      ∷ on_put put_negative
      ∷ on_put put_longer
      ∷ on_put put_mismatch
      ∷ on_put put_committed
      ∷ on_put (stored test_digest)
      ∷ on_put (stored test_digest_512)
      ∷ [])

  -- `exerciseStatBlobTable`
  unfoldable pub exercise_stat_blob_table : Test
  exercise_stat_blob_table =
      run_all (on_stat stat_malformed ∷ on_stat stat_unknown ∷ on_stat stat_known ∷ [])

  -- `ExerciseBlobWriterContract`
  unfoldable pub exercise_blob_writer_contract : Test
  exercise_blob_writer_contract = run_all (
      exercise_put_blob_table
      ∷ subtest s.new_store (put_two_algorithms s.store)
      ∷ exercise_stat_blob_table
      ∷ [])
