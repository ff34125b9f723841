-- ===== src/Contracts/Passes/Reading.antt =====
-- The tests of `GetBlob` and `GetBlobRange`, over files.
use omnistash.Base.{ℕ, ◌+◌, ◌≡◌, refl, true, [], ◌∷◌, string_eq, pair_eq}
use omnistash.Base.Int.{ℤ, pos, negsuc}
use omnistash.Errors.{Result, ok, err, is, store as blob_error, StoreError}
use omnistash.Env.{Env}
use omnistash.Blobstore.Files.{Bytes}
use omnistash.Contracts.Testing.{run_all}
use omnistash.Contracts.Blobs.Fixtures.{
  default_namespace, test_content, test_digest, test_digest_512, malformed_digest, opening, closing,
  equal_bytes, seed_blob,
}
use omnistash.Contracts.Passes.Fs.{
  Knows, store, at, new_fs, fs, path_laws, one_file, test_path, test_512_path,
}
use omnistash.World.{World, ◌>>=◌}
use omnistash.Contracts.Blobs.Reader.{
  Want, run_get, get_malformed, get_unknown, get_known, run_range, unseeded, ranged,
  exercise_get_blob, exercise_get_blob_range, exercise_blob_reader_contract,
}
use omnistash.Contracts.Passes.Writing.{put_test, put_512, seed_test}

module _ (env : Env) (k : Knows env) (w : World) where
  get_malformed_passes : (run_get (store env) get_malformed (new_fs w)).0 ≡ ok tt
  unfolding run_get store
  get_malformed_passes = simp (k.refuses)

  get_unknown_passes : (run_get (store env) get_unknown (new_fs w)).0 ≡ ok tt
  unfolding run_get store
  get_unknown_passes = simp (k.reads_test.is_valid)

  pub get_test :
      (n : ℕ)
      → (store env).get_blob default_namespace test_digest (at w n (one_file test_path))
        ≡ (ok (test_content, 2), at w n (one_file test_path))
  unfolding store
  get_test n =
      simp (k.reads_test.is_valid, k.reads_test.has_algorithm, k.reads_test.has_hex, path_laws)

  get_512 :
      (n : ℕ)
      → (store env).get_blob default_namespace test_digest_512 (at w n (one_file test_512_path))
        ≡ (ok (test_content, 2), at w n (one_file test_512_path))
  unfolding store
  get_512 n = simp (k.reads_512.is_valid, k.reads_512.has_algorithm, k.reads_512.has_hex, path_laws)

  get_test_passes : (run_get (store env) (get_known test_digest) (new_fs w)).0 ≡ ok tt
  unfolding run_get seed_blob ◌>>=◌ store
  get_test_passes = rw (put_test env k w w.drawn, get_test (w.drawn + 1))

  get_512_passes : (run_get (store env) (get_known test_digest_512) (new_fs w)).0 ≡ ok tt
  unfolding run_get seed_blob ◌>>=◌ store
  get_512_passes = rw (put_512 env k w w.drawn, get_512 (w.drawn + 1))

  range_malformed_passes :
      (run_range (store env) (unseeded malformed_digest StoreError.invalid_digest) (new_fs w)).0
      ≡ ok tt
  unfolding run_range store
  range_malformed_passes = simp (k.refuses)

  range_unknown_passes :
      (run_range (store env) (unseeded test_digest StoreError.blob_unknown) (new_fs w)).0 ≡ ok tt
  unfolding run_range store
  range_unknown_passes = simp (k.reads_test.is_valid)

  -- A test on a range of the test blob passes if the result of the call is what is wanted.
  abbrev Gets : ℤ → ℤ → Result Bytes → Type 0
  Gets first last r =
      (store env).get_blob_range default_namespace test_digest first last
        (at w (w.drawn + 1) (one_file test_path))
      ≡ (r, at w (w.drawn + 1) (one_file test_path))

  ranges :
      Gets (negsuc 0) (pos 0) (err (blob_error StoreError.invalid_range ∷ []))
      × Gets (pos 5) (pos 3) (err (blob_error StoreError.invalid_range ∷ []))
      × Gets (pos 0) (pos 102) (err (blob_error StoreError.range_not_satisfiable ∷ []))
      × Gets (pos 0) (pos 1) (ok test_content)
      × Gets (pos 0) (pos 0) (ok opening)
      × Gets (pos 1) (pos 1) (ok closing)
  unfolding store
  ranges = (
    simp (k.reads_test.is_valid, k.reads_test.has_algorithm, k.reads_test.has_hex),
    simp (k.reads_test.is_valid, k.reads_test.has_algorithm, k.reads_test.has_hex),
    simp (k.reads_test.is_valid, k.reads_test.has_algorithm, k.reads_test.has_hex, path_laws),
    simp (k.reads_test.is_valid, k.reads_test.has_algorithm, k.reads_test.has_hex, path_laws),
    simp (k.reads_test.is_valid, k.reads_test.has_algorithm, k.reads_test.has_hex, path_laws),
    simp (k.reads_test.is_valid, k.reads_test.has_algorithm, k.reads_test.has_hex, path_laws),
  )

  range_passes :
      (first last : ℤ) (b : Bytes)
      → Gets first last (ok b)
      → equal_bytes b b ≡ true
      → (run_range (store env) (ranged first last (Want.content b)) (new_fs w)).0 ≡ ok tt
  unfolding run_range ◌>>=◌
  range_passes first last b e h = rw (seed_test env k w, e, h)

  range_fails :
      (first last : ℤ) (f : StoreError)
      → Gets first last (err (blob_error f ∷ []))
      → is (blob_error f ∷ []) (blob_error f) ≡ true
      → (run_range (store env) (ranged first last (Want.failure f)) (new_fs w)).0 ≡ ok tt
  unfolding run_range ◌>>=◌
  range_fails first last f e h = rw (seed_test env k w, e, h)

  pub reader_passes : exercise_blob_reader_contract (fs env) w ≡ (ok tt, w)
  unfolding exercise_blob_reader_contract exercise_get_blob exercise_get_blob_range run_all ◌>>=◌
  reader_passes = rw (
    get_malformed_passes,
    get_unknown_passes,
    get_test_passes,
    get_512_passes,
    range_malformed_passes,
    range_unknown_passes,
    range_fails (negsuc 0) (pos 0) StoreError.invalid_range ranges.0 refl,
    range_fails (pos 5) (pos 3) StoreError.invalid_range ranges.1 refl,
    range_fails (pos 0) (pos 102) StoreError.range_not_satisfiable ranges.2 refl,
    range_passes (pos 0) (pos 1) test_content ranges.3 refl,
    range_passes (pos 0) (pos 0) opening ranges.4 refl,
    range_passes (pos 1) (pos 1) closing ranges.5 refl,
  )
