-- ===== src/Contracts/Blobs/Reader.antt =====
-- internal/blobstore/blobstoretest/reader.go
use omnistash.Base.{ℕ, Bool, true, false, [], ◌∷◌, eqb, length, if◌then◌else◌}
use omnistash.Base.Int.{ℤ, pos, negsuc}
use omnistash.Errors.{store, StoreError}
use omnistash.Metastore.Tables.{Digest}
use omnistash.Blobstore.Files.{Bytes}
use omnistash.Contracts.Stores.{BlobStore}
use omnistash.Contracts.Testing.{Test, assert, must, must_fail, subtest, run_all}
use omnistash.Contracts.Blobs.Fixtures.{
  Setup, default_namespace, test_content, test_digest, test_digest_512, malformed_digest, opening,
  closing, equal_bytes, seed_blob, seed_if,
}
use omnistash.World.{Proc, pure, ◌>>=◌, ◌>>◌}

-- What a test case wants: a content or an error.
pub data Want : Type 0 where
  content : Bytes → Want
  failure : StoreError → Want

-- The content and the size of a reader. What stands beside an error is not modelled.
abbrev pub wanted : Want → Proc (Bytes × ℕ) → Test
wanted (content b) call = do
  got ← must call
  assert (eqb got.1 (length b))
  assert (equal_bytes got.0 b)
wanted (failure e) call = must_fail (store e) call

-- A case of the table of `exerciseGetBlob`.
pub record GetCase : Type 0 where
  pub seed : Bool
  pub digest : Digest
  pub want : Want

unfoldable pub run_get : BlobStore → GetCase → Test
run_get s c = do
  if c.seed then seed_blob s default_namespace c.digest test_content else pure tt
  wanted c.want (s.get_blob default_namespace c.digest)

abbrev pub get_malformed : GetCase
get_malformed = record {
  seed = false;
  digest = malformed_digest;
  want = failure StoreError.invalid_digest;
}

abbrev pub get_unknown : GetCase
get_unknown = record { seed = false; digest = test_digest; want = failure StoreError.blob_unknown }

abbrev pub get_known : Digest → GetCase
get_known d = record { seed = true; digest = d; want = content test_content }

-- A case of the table of `exerciseGetBlobRange`.
pub record RangeCase : Type 0 where
  pub seed : Bool
  pub digest : Digest
  pub first : ℤ
  pub last : ℤ
  pub want : Want

abbrev pub wanted_range : Want → Proc Bytes → Test
wanted_range (content b) call = do got ← must call; assert (equal_bytes got b)
wanted_range (failure e) call = must_fail (store e) call

unfoldable pub run_range : BlobStore → RangeCase → Test
run_range s c = do
  seed_if s c.seed
  wanted_range c.want (s.get_blob_range default_namespace c.digest c.first c.last)

abbrev pub unseeded : Digest → StoreError → RangeCase
unseeded d e = record { seed = false; digest = d; first = pos 0; last = pos 0; want = failure e }

abbrev pub ranged : ℤ → ℤ → Want → RangeCase
ranged first last want = record {
  seed = true;
  digest = test_digest;
  first = first;
  last = last;
  want = want;
}

module _ (s : Setup) where
  abbrev on_get : GetCase → Test
  on_get c = subtest s.new_store (run_get s.store c)

  abbrev on_range : RangeCase → Test
  on_range c = subtest s.new_store (run_range s.store c)

  -- `exerciseGetBlob`
  unfoldable pub exercise_get_blob : Test
  exercise_get_blob = run_all (
      on_get get_malformed
      ∷ on_get get_unknown
      ∷ on_get (get_known test_digest)
      ∷ on_get (get_known test_digest_512)
      ∷ [])

  -- `exerciseGetBlobRange`
  unfoldable pub exercise_get_blob_range : Test
  exercise_get_blob_range = run_all (
      on_range (unseeded malformed_digest StoreError.invalid_digest)
      ∷ on_range (unseeded test_digest StoreError.blob_unknown)
      ∷ on_range (ranged (negsuc 0) (pos 0) (failure StoreError.invalid_range))
      ∷ on_range (ranged (pos 5) (pos 3) (failure StoreError.invalid_range))
      ∷ on_range (ranged (pos 0) (pos 102) (failure StoreError.range_not_satisfiable))
      ∷ on_range (ranged (pos 0) (pos 1) (content test_content))
      ∷ on_range (ranged (pos 0) (pos 0) (content opening))
      ∷ on_range (ranged (pos 1) (pos 1) (content closing))
      ∷ [])

  -- `ExerciseBlobReaderContract`
  unfoldable pub exercise_blob_reader_contract : Test
  exercise_blob_reader_contract = run_all (exercise_get_blob ∷ exercise_get_blob_range ∷ [])
