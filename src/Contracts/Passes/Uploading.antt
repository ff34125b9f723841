-- ===== src/Contracts/Passes/Uploading.antt =====
-- The tests of uploads, over files.
use omnistash.Base.{◌+◌, ◌≡◌, refl, false, none, ◌==◌, String, [], string_eq, pair_eq, arith}
use omnistash.Errors.{ok}
use omnistash.Env.{Env}
use omnistash.Blobstore.Os.{build_staging_path}
use omnistash.Contracts.Testing.{run_all}
use omnistash.Contracts.Blobs.Fixtures.{default_namespace, test_content, opening}
use omnistash.Contracts.Passes.Fs.{
  Knows, store, new_fs, fs, path_laws, same_path, one_file, test_path, test_hex, blob_path,
}
use omnistash.World.{World, ◌>>=◌}
use omnistash.Base.Table.{lookup}
use omnistash.Contracts.Blobs.Uploader.{
  assert_committed, require_offset, unique_ids, offset_unknown, offset_fresh, append_unknown,
  append_negative, append_wrong_offset, append_two, finalize_unknown, finalize_longer,
  finalize_mismatch, finalize_malformed, finalize_committed, upload_whole, upload_chunks,
  cancel_unknown, cancel_twice, upload_empty, exercise_initiate_blob_upload,
  exercise_get_blob_upload_offset, exercise_append_blob_chunk, exercise_finalize_blob_upload_errors,
  exercise_cancel_upload, exercise_blob_uploader_contract,
}
use omnistash.Contracts.Passes.Writing.{seed_test}
use omnistash.Contracts.Passes.Reading.{get_test}
use omnistash.Contracts.Passes.Deleting.{no_names}
use omnistash.Contracts.Passes.Sessions.{
  initiate_first, initiate-beside, offset_held, append_one, append_other, append_wrong, cancel_held,
  cancel_gone, append-beside, finalize_longer_lem, finalize_zero, finalize_bad, finalize-full,
  finalize_empty, finalize-beside, offset_beside, session_removed, get_empty, empty_file,
}

module _ (env : Env) (k : Knows env) (w : World) where
  -- The staging path of the first upload is no name of a committed file.
  no_session :
      (hex : String)
      → lookup
          (build_staging_path default_namespace (env.uuid w.drawn))
          (one_file (blob_path default_namespace "sha256" hex)).names
        ≡ none
  unfolding lookup
  no_session hex = simp (path_laws)

  later_id : (env.uuid (w.drawn + 1) == env.uuid w.drawn) ≡ false
  later_id = ground (arith, k.uuid_unique w.drawn)

  later_path :
      (build_staging_path default_namespace (env.uuid (w.drawn + 1))
        == build_staging_path default_namespace (env.uuid w.drawn))
      ≡ false
  later_path = ground (arith, later_id)

  earlier_id : (env.uuid w.drawn == env.uuid (w.drawn + 1)) ≡ false
  earlier_id = ground (arith, k.uuid_unique w.drawn)

  not_empty : (env.uuid w.drawn == "") ≡ false
  not_empty = ground (arith, k.uuid_text w.drawn)

  unique_ids_passes : (unique_ids (store env) (new_fs w)).0 ≡ ok tt
  unfolding unique_ids store
  unique_ids_passes = simp (not_empty, later_path, earlier_id)

  offset_unknown_passes : (offset_unknown (store env) (new_fs w)).0 ≡ ok tt
  unfolding offset_unknown store
  offset_unknown_passes = refl

  offset_fresh_passes : (offset_fresh (store env) (new_fs w)).0 ≡ ok tt
  unfolding offset_fresh require_offset store
  offset_fresh_passes = simp (same_path)

  append_unknown_passes : (append_unknown (store env) (new_fs w)).0 ≡ ok tt
  unfolding append_unknown store
  append_unknown_passes = refl

  append_negative_passes : (append_negative (store env) (new_fs w)).0 ≡ ok tt
  unfolding append_negative require_offset store
  append_negative_passes = simp (same_path)

  append_wrong_offset_passes : (append_wrong_offset (store env) (new_fs w)).0 ≡ ok tt
  unfolding append_wrong_offset require_offset ◌>>=◌
  append_wrong_offset_passes = rw (
    initiate_first env w w.drawn,
    append_wrong env w (w.drawn + 1) (env.uuid w.drawn),
    offset_held env w (w.drawn + 1) (env.uuid w.drawn) [],
  )

  append_two_passes : (append_two (store env) (new_fs w)).0 ≡ ok tt
  unfolding append_two require_offset ◌>>=◌
  append_two_passes = rw (
    initiate_first env w w.drawn,
    append_one env w (w.drawn + 1) (env.uuid w.drawn) opening,
    offset_held env w (w.drawn + 1) (env.uuid w.drawn) opening,
    append_other env w (w.drawn + 1) (env.uuid w.drawn),
    offset_held env w (w.drawn + 1) (env.uuid w.drawn) test_content,
  )

  finalize_unknown_passes : (finalize_unknown (store env) (new_fs w)).0 ≡ ok tt
  unfolding finalize_unknown store
  finalize_unknown_passes = simp (k.reads_test.is_valid)

  finalize_longer_passes : (finalize_longer (store env) (new_fs w)).0 ≡ ok tt
  unfolding finalize_longer ◌>>=◌
  finalize_longer_passes = rw (
    initiate_first env w w.drawn,
    append_one env w (w.drawn + 1) (env.uuid w.drawn) test_content,
    finalize_longer_lem env k w (w.drawn + 1) (env.uuid w.drawn),
    offset_held env w (w.drawn + 1) (env.uuid w.drawn) test_content,
    finalize-full env k w (w.drawn + 1) (env.uuid w.drawn),
    session_removed env k w (w.drawn + 1) (env.uuid w.drawn) (one_file test_path)
        (no_session test_hex),
  )

  finalize_mismatch_passes : (finalize_mismatch (store env) (new_fs w)).0 ≡ ok tt
  unfolding finalize_mismatch ◌>>=◌ lookup
  finalize_mismatch_passes = rw (
    initiate_first env w w.drawn,
    append_one env w (w.drawn + 1) (env.uuid w.drawn) test_content,
    finalize_zero env k w (w.drawn + 1) (env.uuid w.drawn),
    offset_held env w (w.drawn + 1) (env.uuid w.drawn) test_content,
    cancel_held env w (w.drawn + 1) (env.uuid w.drawn) test_content,
    session_removed env k w (w.drawn + 1) (env.uuid w.drawn) (no_names test_content) refl,
  )

  finalize_malformed_passes : (finalize_malformed (store env) (new_fs w)).0 ≡ ok tt
  unfolding finalize_malformed ◌>>=◌
  finalize_malformed_passes = rw (
    initiate_first env w w.drawn,
    append_one env w (w.drawn + 1) (env.uuid w.drawn) test_content,
    finalize_bad env k w (w.drawn + 1) (env.uuid w.drawn),
    offset_held env w (w.drawn + 1) (env.uuid w.drawn) test_content,
  )

  finalize_committed_passes : (finalize_committed (store env) (new_fs w)).0 ≡ ok tt
  unfolding finalize_committed ◌>>=◌
  finalize_committed_passes = rw (
    seed_test env k w,
    initiate-beside env w (w.drawn + 1),
    append-beside env w (w.drawn + 1 + 1) (env.uuid (w.drawn + 1)),
    finalize-beside env k w (w.drawn + 1 + 1) (env.uuid (w.drawn + 1)),
    offset_beside env k w (w.drawn + 1 + 1) (env.uuid (w.drawn + 1)),
  )

  upload_whole_passes : (upload_whole (store env) (new_fs w)).0 ≡ ok tt
  unfolding upload_whole assert_committed ◌>>=◌
  upload_whole_passes = rw (
    initiate_first env w w.drawn,
    append_one env w (w.drawn + 1) (env.uuid w.drawn) test_content,
    finalize-full env k w (w.drawn + 1) (env.uuid w.drawn),
    session_removed env k w (w.drawn + 1) (env.uuid w.drawn) (one_file test_path)
        (no_session test_hex),
    get_test env k w (w.drawn + 1),
  )

  upload_chunks_passes : (upload_chunks (store env) (new_fs w)).0 ≡ ok tt
  unfolding upload_chunks assert_committed ◌>>=◌
  upload_chunks_passes = rw (
    initiate_first env w w.drawn,
    append_one env w (w.drawn + 1) (env.uuid w.drawn) opening,
    append_other env w (w.drawn + 1) (env.uuid w.drawn),
    finalize-full env k w (w.drawn + 1) (env.uuid w.drawn),
    session_removed env k w (w.drawn + 1) (env.uuid w.drawn) (one_file test_path)
        (no_session test_hex),
    get_test env k w (w.drawn + 1),
  )

  cancel_unknown_passes : (cancel_unknown (store env) (new_fs w)).0 ≡ ok tt
  unfolding cancel_unknown store
  cancel_unknown_passes = refl

  cancel_twice_passes : (cancel_twice (store env) (new_fs w)).0 ≡ ok tt
  unfolding cancel_twice ◌>>=◌ lookup
  cancel_twice_passes = rw (
    initiate_first env w w.drawn,
    cancel_held env w (w.drawn + 1) (env.uuid w.drawn) [],
    session_removed env k w (w.drawn + 1) (env.uuid w.drawn) (no_names []) refl,
    cancel_gone env w (w.drawn + 1) (env.uuid w.drawn) [],
  )

  upload_empty_passes : (upload_empty (store env) (new_fs w)).0 ≡ ok tt
  unfolding upload_empty ◌>>=◌
  upload_empty_passes = rw (
    initiate_first env w w.drawn,
    finalize_empty env k w (w.drawn + 1) (env.uuid w.drawn),
    session_removed env k w (w.drawn + 1) (env.uuid w.drawn) empty_file
        (no_session "e3b0c44298fc1c149afbf4c8996fb92427ae41e4649b934ca495991b7852b855"),
    get_empty env k w (w.drawn + 1) (env.uuid w.drawn),
  )

  pub uploader_passes : exercise_blob_uploader_contract (fs env) w ≡ (ok tt, w)
  unfolding exercise_blob_uploader_contract exercise_initiate_blob_upload
      exercise_get_blob_upload_offset exercise_append_blob_chunk
      exercise_finalize_blob_upload_errors exercise_cancel_upload run_all ◌>>=◌
  uploader_passes = rw (
    unique_ids_passes, offset_unknown_passes, offset_fresh_passes, append_unknown_passes,
    append_negative_passes, append_wrong_offset_passes, append_two_passes, finalize_unknown_passes,
    finalize_longer_passes, finalize_mismatch_passes, finalize_malformed_passes,
    finalize_committed_passes, upload_whole_passes, upload_chunks_passes, cancel_unknown_passes,
    cancel_twice_passes, upload_empty_passes,
  )
