-- ===== src/Contracts/Passes/Deleting.antt =====
-- The tests of `DeleteBlob` and `BatchDeleteBlobs`, over files.
use omnistash.Base.{ℕ, ◌+◌, ◌≡◌, [], ◌∷◌, string_eq, pair_eq}
use omnistash.Errors.{ok, err, store as blob_error, StoreError}
use omnistash.Env.{Env}
use omnistash.Blobstore.Files.{Files, Bytes}
use omnistash.Contracts.Testing.{run_all}
use omnistash.Contracts.Blobs.Fixtures.{
  default_namespace, test_content, test_digest, malformed_digest,
}
use omnistash.Contracts.Passes.Fs.{
  Knows, store, at, new_fs, fs, path_laws, world_after, one_file, test_path,
}
use omnistash.World.{World, ◌>>=◌}
use omnistash.Contracts.Blobs.Deleter.{
  run_delete, delete_malformed, delete_absent, delete_existing, run_batch, batch_malformed,
  batch_absent, batch_mixed, batch_existing, exercise_delete_blob_table,
  exercise_batch_delete_blobs_table, exercise_blob_deleter_contract,
}
use omnistash.Contracts.Passes.Writing.{seed_test}

-- The files after the only file lost its name.
abbrev pub no_names : Bytes → Files
no_names b = record { names = []; contents = (0, b) ∷ []; made = 1 }

module _ (env : Env) (k : Knows env) (w : World) (n : ℕ) where
  abbrev seeded : World
  seeded = at w n (one_file test_path)

  abbrev deleted : World
  deleted = at w n (no_names test_content)

  delete_test : (store env).delete_blob default_namespace test_digest seeded ≡ (ok tt, deleted)
  unfolding store
  delete_test =
      simp (k.reads_test.is_valid, k.reads_test.has_algorithm, k.reads_test.has_hex, path_laws)

  delete_batch :
      (store env).batch_delete_blobs default_namespace (test_digest ∷ []) seeded ≡ (ok tt, deleted)
  unfolding store
  delete_batch =
      simp (k.reads_test.is_valid, k.reads_test.has_algorithm, k.reads_test.has_hex, path_laws)

  delete_mixed :
      (store env).batch_delete_blobs default_namespace (test_digest ∷ malformed_digest ∷ []) seeded
      ≡ (
        err (blob_error StoreError.partial_deletion ∷ blob_error StoreError.invalid_digest ∷ []),
        deleted,
      )
  unfolding store
  delete_mixed = simp (
    k.refuses, k.reads_test.is_valid, k.reads_test.has_algorithm, k.reads_test.has_hex, path_laws,
  )

  stat_deleted :
      (store env).stat_blob default_namespace test_digest deleted
      ≡ (err (blob_error StoreError.blob_unknown ∷ []), deleted)
  unfolding store
  stat_deleted = simp (k.reads_test.is_valid)

module _ (env : Env) (k : Knows env) (w : World) where
  delete_malformed_passes : (run_delete (store env) delete_malformed (new_fs w)).0 ≡ ok tt
  unfolding run_delete store
  delete_malformed_passes = simp (k.refuses)

  delete_absent_passes : (run_delete (store env) delete_absent (new_fs w)).0 ≡ ok tt
  unfolding run_delete store
  delete_absent_passes = simp (k.reads_test.is_valid)

  delete_existing_passes : (run_delete (store env) delete_existing (new_fs w)).0 ≡ ok tt
  unfolding run_delete ◌>>=◌ store
  delete_existing_passes =
      rw (seed_test env k w, delete_test env k w (w.drawn + 1), stat_deleted env k w (w.drawn + 1))

  batch_malformed_passes : (run_batch (store env) batch_malformed (new_fs w)).0 ≡ ok tt
  unfolding run_batch store
  batch_malformed_passes = simp (k.refuses)

  batch_absent_passes : (run_batch (store env) batch_absent (new_fs w)).0 ≡ ok tt
  unfolding run_batch store
  batch_absent_passes = simp (k.reads_test.is_valid)

  batch_mixed_passes : (run_batch (store env) batch_mixed (new_fs w)).0 ≡ ok tt
  unfolding run_batch ◌>>=◌
  batch_mixed_passes = rw (
    seed_test env k w,
    delete_mixed env k w (w.drawn + 1),
    world_after (delete_mixed env k w (w.drawn + 1)),
    stat_deleted env k w (w.drawn + 1),
  )

  batch_existing_passes : (run_batch (store env) batch_existing (new_fs w)).0 ≡ ok tt
  unfolding run_batch ◌>>=◌
  batch_existing_passes = rw (
    seed_test env k w,
    delete_batch env k w (w.drawn + 1),
    world_after (delete_batch env k w (w.drawn + 1)),
    stat_deleted env k w (w.drawn + 1),
  )

  pub deleter_passes : exercise_blob_deleter_contract (fs env) w ≡ (ok tt, w)
  unfolding exercise_blob_deleter_contract exercise_delete_blob_table
      exercise_batch_delete_blobs_table run_all ◌>>=◌
  deleter_passes = rw (
    delete_malformed_passes, delete_absent_passes, delete_existing_passes, batch_malformed_passes,
    batch_absent_passes, batch_mixed_passes, batch_existing_passes,
  )
