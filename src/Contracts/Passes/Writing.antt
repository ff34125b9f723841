-- ===== src/Contracts/Passes/Writing.antt =====
-- The tests of `PutBlob` and `StatBlob`, over files.
use omnistash.Base.{ℕ, ◌+◌, ◌≡◌, [], ◌∷◌, string_eq, pair_eq}
use omnistash.Base.Int.{pos}
use omnistash.Errors.{ok, err, store as blob_error, StoreError}
use omnistash.Env.{Env}
use omnistash.Blobstore.Files.{Files, no_files}
use omnistash.Contracts.Testing.{run_all}
use omnistash.Contracts.Blobs.Fixtures.{
  default_namespace, test_content, test_digest, test_digest_512, reader, seed_test_blob,
}
use omnistash.Contracts.Passes.Fs.{
  Knows, store, at, new_fs, fs, path_laws, one_file, test_path, test_512_path,
}
use omnistash.World.{World, ◌>>=◌}
use omnistash.Contracts.Blobs.Writer.{
  run_put, put_malformed, put_negative, put_longer, put_mismatch, put_committed, stored,
  put_two_algorithms, run_stat, stat_malformed, stat_unknown, stat_known, exercise_put_blob_table,
  exercise_stat_blob_table, exercise_blob_writer_contract,
}

-- The files after the test content was stored under both of its digests.
abbrev both_files : Files
both_files = record {
  names = (test_path, 0) ∷ (test_512_path, 1) ∷ [];
  contents = (0, test_content) ∷ (1, test_content) ∷ [];
  made = 2;
}

module _ (env : Env) (k : Knows env) (w : World) where
  pub put_test :
      (n : ℕ)
      → (store env).put_blob default_namespace test_digest
          (pos 2)
          (reader test_content)
          (at w n no_files)
        ≡ (ok 2, at w (n + 1) (one_file test_path))
  unfolding store
  put_test n = simp (
    k.reads_test.is_valid, k.reads_test.has_algorithm, k.reads_test.has_hex, k.has_sha256,
    k.sha256_test, path_laws,
  )

  pub put_512 :
      (n : ℕ)
      → (store env).put_blob default_namespace test_digest_512
          (pos 2)
          (reader test_content)
          (at w n no_files)
        ≡ (ok 2, at w (n + 1) (one_file test_512_path))
  unfolding store
  put_512 n = simp (
    k.reads_512.is_valid, k.reads_512.has_algorithm, k.reads_512.has_hex, k.has_sha512,
    k.sha512_test, path_laws,
  )

  put_after :
      (n : ℕ)
      → (store env).put_blob default_namespace test_digest_512
          (pos 2)
          (reader test_content)
          (at w n (one_file test_path))
        ≡ (ok 2, at w (n + 1) both_files)
  unfolding store
  put_after n = simp (
    k.reads_512.is_valid, k.reads_512.has_algorithm, k.reads_512.has_hex, k.has_sha512,
    k.sha512_test, path_laws,
  )

  put_again :
      (n : ℕ)
      → ((store env).put_blob default_namespace test_digest
          (pos 2)
          (reader test_content)
          (at w n (one_file test_path))).0
        ≡ err (blob_error StoreError.blob_committed ∷ [])
  unfolding store
  put_again n = simp (
    k.reads_test.is_valid, k.reads_test.has_algorithm, k.reads_test.has_hex, k.has_sha256,
    k.sha256_test, path_laws,
  )

  pub seed_test :
      seed_test_blob (store env) (new_fs w) ≡ (ok tt, at w (w.drawn + 1) (one_file test_path))
  unfolding seed_test_blob ◌>>=◌ store
  seed_test = rw (put_test w.drawn)

  malformed_passes : (run_put (store env) put_malformed (new_fs w)).0 ≡ ok tt
  unfolding run_put store
  malformed_passes = simp (k.refuses)

  negative_passes : (run_put (store env) put_negative (new_fs w)).0 ≡ ok tt
  unfolding run_put store
  negative_passes = simp (k.reads_test.is_valid)

  longer_passes : (run_put (store env) put_longer (new_fs w)).0 ≡ ok tt
  unfolding run_put store
  longer_passes = simp (k.reads_test.is_valid, k.reads_test.has_algorithm, k.has_sha256)

  mismatch_passes : (run_put (store env) put_mismatch (new_fs w)).0 ≡ ok tt
  unfolding run_put store
  mismatch_passes = simp (
    k.reads_zero.is_valid, k.reads_zero.has_algorithm, k.reads_zero.has_hex, k.has_sha256,
    k.sha256_test, path_laws,
  )

  committed_passes : (run_put (store env) put_committed (new_fs w)).0 ≡ ok tt
  unfolding run_put ◌>>=◌
  committed_passes = rw (seed_test, put_again)

  stored_passes : (run_put (store env) (stored test_digest) (new_fs w)).0 ≡ ok tt
  unfolding run_put ◌>>=◌
  stored_passes = rw (put_test w.drawn)

  stored_512_passes : (run_put (store env) (stored test_digest_512) (new_fs w)).0 ≡ ok tt
  unfolding run_put ◌>>=◌
  stored_512_passes = rw (put_512 w.drawn)

  stat_malformed_passes : (run_stat (store env) stat_malformed (new_fs w)).0 ≡ ok tt
  unfolding run_stat store
  stat_malformed_passes = simp (k.refuses)

  stat_unknown_passes : (run_stat (store env) stat_unknown (new_fs w)).0 ≡ ok tt
  unfolding run_stat store
  stat_unknown_passes = simp (k.reads_test.is_valid)

  stat_test :
      (n : ℕ)
      → (store env).stat_blob default_namespace test_digest (at w n (one_file test_path))
        ≡ (ok 2, at w n (one_file test_path))
  unfolding store
  stat_test n =
      simp (k.reads_test.is_valid, k.reads_test.has_algorithm, k.reads_test.has_hex, path_laws)

  stat_both :
      (n : ℕ)
      → ((store env).stat_blob default_namespace test_digest (at w n both_files)
          ≡ (ok 2, at w n both_files))
        × ((store env).stat_blob default_namespace test_digest_512 (at w n both_files)
            ≡ (ok 2, at w n both_files))
  unfolding store
  stat_both n = (
    simp (k.reads_test.is_valid, k.reads_test.has_algorithm, k.reads_test.has_hex, path_laws),
    simp (k.reads_512.is_valid, k.reads_512.has_algorithm, k.reads_512.has_hex, path_laws),
  )

  stat_known_passes : (run_stat (store env) stat_known (new_fs w)).0 ≡ ok tt
  unfolding run_stat ◌>>=◌
  stat_known_passes = rw (seed_test, stat_test (w.drawn + 1))

  two_algorithms_passes : (put_two_algorithms (store env) (new_fs w)).0 ≡ ok tt
  unfolding put_two_algorithms ◌>>=◌ store
  two_algorithms_passes = rw (
    put_test w.drawn,
    put_after (w.drawn + 1),
    (stat_both (w.drawn + 1 + 1)).0,
    (stat_both (w.drawn + 1 + 1)).1,
  )

  pub writer_passes : exercise_blob_writer_contract (fs env) w ≡ (ok tt, w)
  unfolding exercise_blob_writer_contract exercise_put_blob_table exercise_stat_blob_table run_all
      ◌>>=◌
  writer_passes = rw (
    malformed_passes, negative_passes, longer_passes, mismatch_passes, committed_passes,
    stored_passes, stored_512_passes, two_algorithms_passes, stat_malformed_passes,
    stat_unknown_passes, stat_known_passes,
  )
