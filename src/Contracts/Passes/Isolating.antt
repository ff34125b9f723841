-- ===== src/Contracts/Passes/Isolating.antt =====
-- The tests that namespaces share nothing, over files.
use omnistash.Base.{ℕ, ◌+◌, ◌≡◌, [], ◌∷◌, string_eq, pair_eq}
use omnistash.Base.Int.{pos}
use omnistash.Errors.{ok, err, store as blob_error, StoreError}
use omnistash.Env.{Env}
use omnistash.Blobstore.Files.{Files}
use omnistash.Contracts.Testing.{run_all}
use omnistash.Contracts.Blobs.Fixtures.{
  default_namespace, other_namespace, test_content, test_digest, reader, seed_blob,
}
use omnistash.Contracts.Passes.Fs.{
  Knows, store, at, new_fs, fs, path_laws, other_staging, one_file, test_path, other_path,
}
use omnistash.World.{World, ◌>>=◌}
use omnistash.Contracts.Blobs.Isolation.{
  blob_elsewhere, blob_in_two, session_elsewhere, exercise_namespace_isolation_contract,
}
use omnistash.Contracts.Passes.Writing.{put_test}

-- The files after the test content was stored in both namespaces.
abbrev two_namespaces : Files
two_namespaces = record {
  names = (test_path, 0) ∷ (other_path, 1) ∷ [];
  contents = (0, test_content) ∷ (1, test_content) ∷ [];
  made = 2;
}

module _ (env : Env) (k : Knows env) (w : World) (n : ℕ) where
  abbrev both : World
  both = at w n two_namespaces

  get_elsewhere :
      (store env).get_blob other_namespace test_digest (at w n (one_file test_path))
      ≡ (err (blob_error StoreError.blob_unknown ∷ []), at w n (one_file test_path))
  unfolding store
  get_elsewhere =
      simp (k.reads_test.is_valid, k.reads_test.has_algorithm, k.reads_test.has_hex, path_laws)

  put_elsewhere :
      (store env).put_blob other_namespace test_digest
        (pos 2)
        (reader test_content)
        (at w n (one_file test_path))
      ≡ (ok 2, at w (n + 1) two_namespaces)
  unfolding store
  put_elsewhere = simp (
    k.has_sha256, k.sha256_test, k.reads_test.is_valid, k.reads_test.has_algorithm,
    k.reads_test.has_hex, path_laws,
  )

  stat_both :
      ((store env).stat_blob default_namespace test_digest both ≡ (ok 2, both))
      × ((store env).stat_blob other_namespace test_digest both ≡ (ok 2, both))
  unfolding store
  stat_both = (
    simp (k.reads_test.is_valid, k.reads_test.has_algorithm, k.reads_test.has_hex, path_laws),
    simp (k.reads_test.is_valid, k.reads_test.has_algorithm, k.reads_test.has_hex, path_laws),
  )

module _ (env : Env) (k : Knows env) (w : World) where
  elsewhere_passes : (blob_elsewhere (store env) (new_fs w)).0 ≡ ok tt
  unfolding blob_elsewhere seed_blob ◌>>=◌ store
  elsewhere_passes = rw (put_test env k w w.drawn, get_elsewhere env k w (w.drawn + 1))

  in_two_passes : (blob_in_two (store env) (new_fs w)).0 ≡ ok tt
  unfolding blob_in_two ◌>>=◌ store
  in_two_passes = rw (
    put_test env k w w.drawn,
    put_elsewhere env k w (w.drawn + 1),
    (stat_both env k w (w.drawn + 1 + 1)).0,
    (stat_both env k w (w.drawn + 1 + 1)).1,
  )

  session_passes : (session_elsewhere (store env) (new_fs w)).0 ≡ ok tt
  unfolding session_elsewhere store
  session_passes = simp (other_staging)

  pub isolation_passes : exercise_namespace_isolation_contract (fs env) w ≡ (ok tt, w)
  unfolding exercise_namespace_isolation_contract run_all ◌>>=◌
  isolation_passes = rw (elsewhere_passes, in_two_passes, session_passes)
