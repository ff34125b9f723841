-- ===== src/Contracts/Passes/Sessions.antt =====
-- The calls on an upload that the tests make, over files, each in the state in which it is made.
use omnistash.Base.{ℕ, ◌+◌, ◌≡◌, refl, none, String, [], ◌∷◌, string_eq, pair_eq, length}
use omnistash.Base.Int.{pos, negsuc}
use omnistash.Errors.{ok, err, store as blob_error, StoreError}
use omnistash.Env.{Env}
use omnistash.Blobstore.Files.{FilePath, Files, Bytes, no_files}
use omnistash.Blobstore.Os.{build_staging_path}
use omnistash.Contracts.Blobs.Fixtures.{
  default_namespace, test_content, test_digest, zero_digest, empty_digest, malformed_digest,
  opening, closing,
}
use omnistash.Contracts.Passes.Fs.{Knows, store, at, fs, path_laws, one_file, test_path, blob_path}
use omnistash.World.{World}
use omnistash.Base.Table.{lookup}
use native.Mathlib.Nat.{zero-add}
use omnistash.Contracts.Blobs.Uploader.{
  initiate, append, offset_of, finalize, cancel, assert_session_removed, assert_committed,
}
use omnistash.Contracts.Passes.Deleting.{no_names}

-- The files with one upload, and those with one upload beside the test blob.
abbrev pub holding : String → Bytes → Files
holding id b = record {
  names = (build_staging_path default_namespace id, 0) ∷ [];
  contents = (0, b) ∷ [];
  made = 1;
}

abbrev pub beside : String → Bytes → Files
beside id b = record {
  names = (test_path, 0) ∷ (build_staging_path default_namespace id, 1) ∷ [];
  contents = (0, test_content) ∷ (1, b) ∷ [];
  made = 2;
}

-- The files after the commit of an empty upload, and those with the bytes of an upload that was
-- removed since its blob was there.
abbrev pub empty_path : FilePath
empty_path =
    blob_path default_namespace "sha256"
      "e3b0c44298fc1c149afbf4c8996fb92427ae41e4649b934ca495991b7852b855"

abbrev pub empty_file : Files
empty_file = record { names = (empty_path, 0) ∷ []; contents = (0, []) ∷ []; made = 1 }

abbrev pub left_beside : Files
left_beside = record {
  names = (test_path, 0) ∷ [];
  contents = (0, test_content) ∷ (1, test_content) ∷ [];
  made = 2;
}

module _ (env : Env) (w : World) (n : ℕ) where
  pub initiate_first :
      initiate (store env) (at w n no_files)
      ≡ (ok (env.uuid n), at w (n + 1) (holding (env.uuid n) []))
  unfolding store
  initiate_first = refl

  pub initiate-beside :
      initiate (store env) (at w n (one_file test_path))
      ≡ (ok (env.uuid n), at w (n + 1) (beside (env.uuid n) []))
  unfolding store
  initiate-beside = simp (path_laws)

module _ (env : Env) (w : World) (n : ℕ) (id : String) where
  abbrev hold : Bytes → World
  hold b = at w n (holding id b)

  pub offset_held : (b : Bytes) → offset_of (store env) id (hold b) ≡ (ok (length b), hold b)
  unfolding store
  offset_held b = simp (path_laws)

  pub append_one : (b : Bytes) → append (store env) id (pos 0) b (hold []) ≡ (ok (length b), hold b)
  unfolding store
  append_one b = simp (path_laws, zero-add)

  pub append_other :
      append (store env) id (pos 1) closing (hold opening) ≡ (ok 2, hold test_content)
  unfolding store
  append_other = simp (path_laws)

  pub append_negative_lem :
      (b : Bytes)
      → append (store env) id (negsuc 0) b (hold [])
        ≡ (err (blob_error StoreError.blob_upload_invalid ∷ []), hold [])
  unfolding store
  append_negative_lem b = refl

  pub append_wrong :
      append (store env) id (pos 5) test_content (hold [])
      ≡ (err (blob_error StoreError.range_not_satisfiable ∷ []), hold [])
  unfolding store
  append_wrong = simp (path_laws)

  pub cancel_held : (b : Bytes) → cancel (store env) id (hold b) ≡ (ok tt, at w n (no_names b))
  unfolding store
  cancel_held b = simp (path_laws)

  pub cancel_gone :
      (b : Bytes) → cancel (store env) id (at w n (no_names b)) ≡ (ok tt, at w n (no_names b))
  unfolding store
  cancel_gone b = refl

  pub append-beside :
      append (store env) id (pos 0) test_content (at w n (beside id []))
      ≡ (ok 2, at w n (beside id test_content))
  unfolding store
  append-beside = simp (path_laws)

module _ (env : Env) (k : Knows env) (w : World) (n : ℕ) (id : String) where
  abbrev full : World
  full = at w n (holding id test_content)

  pub finalize_longer_lem :
      finalize (store env) id test_digest (pos 3) full
      ≡ (err (blob_error StoreError.size_invalid ∷ []), full)
  unfolding store
  finalize_longer_lem = simp (k.reads_test.is_valid, path_laws)

  pub finalize_zero :
      finalize (store env) id zero_digest (pos 2) full
      ≡ (err (blob_error StoreError.digest_mismatch ∷ []), full)
  unfolding store
  finalize_zero =
      simp
        (k.reads_zero.is_valid, k.reads_zero.has_algorithm, k.has_sha256, k.sha256_test, path_laws)

  pub finalize_bad :
      finalize (store env) id malformed_digest (pos 2) full
      ≡ (err (blob_error StoreError.invalid_digest ∷ []), full)
  unfolding store
  finalize_bad = simp (k.refuses)

  pub finalize-full :
      finalize (store env) id test_digest (pos 2) full ≡ (ok tt, at w n (one_file test_path))
  unfolding store
  finalize-full = simp (
    k.has_sha256, k.sha256_test, k.reads_test.is_valid, k.reads_test.has_algorithm,
    k.reads_test.has_hex, path_laws,
  )

  pub finalize_empty :
      finalize (store env) id empty_digest (pos 0) (at w n (holding id []))
      ≡ (ok tt, at w n empty_file)
  unfolding store
  finalize_empty = simp (
    k.reads_empty.is_valid, k.reads_empty.has_algorithm, k.reads_empty.has_hex, k.has_sha256,
    k.sha256_empty, path_laws,
  )

  pub finalize-beside :
      finalize (store env) id test_digest (pos 2) (at w n (beside id test_content))
      ≡ (err (blob_error StoreError.blob_committed ∷ []), at w n left_beside)
  unfolding store
  finalize-beside = simp (
    k.has_sha256, k.sha256_test, k.reads_test.is_valid, k.reads_test.has_algorithm,
    k.reads_test.has_hex, path_laws,
  )

  pub offset_beside :
      offset_of (store env) id (at w n left_beside)
      ≡ (err (blob_error StoreError.blob_upload_unknown ∷ []), at w n left_beside)
  unfolding store
  offset_beside = simp (path_laws)

  -- The three calls on an upload that is not there.
  pub session_removed :
      (fs : Files)
      → lookup (build_staging_path default_namespace id) fs.names ≡ none
      → assert_session_removed (store env) id (at w n fs) ≡ (ok tt, at w n fs)
  unfolding assert_session_removed store
  session_removed fs h = simp (h, k.reads_test.is_valid)

  pub get_empty :
      assert_committed (store env) empty_digest [] (at w n empty_file) ≡ (ok tt, at w n empty_file)
  unfolding assert_committed store
  get_empty =
      simp (k.reads_empty.is_valid, k.reads_empty.has_algorithm, k.reads_empty.has_hex, path_laws)
