-- ===== src/Blobstore/Upload.antt =====
-- internal/blobstore/fs/stream.go: resumable uploads.
use omnistash.Base.{ℕ, ◌+◌, String, Bool, true, false, if◌then◌else◌}
use omnistash.Base.Int.{ℤ, is_neg, eq_int}
use omnistash.Errors.{Result, ok, err, fail, is, store, StoreError}
use omnistash.Metastore.Tables.{Digest}
use omnistash.Env.{Env}
use omnistash.Blobstore.Files.{FilePath, read}
use omnistash.Blobstore.Os.{Body, build_staging_path, os_create, os_open, os_stat, file_stat}
use omnistash.Blobstore.Os.{copy_body, remove_file_if_exists}
use omnistash.Blobstore.Digests.{validate_digest, hasher_for, match_digest}
use omnistash.Blobstore.Writer.{new_uuid, map_missing, link_staged_file}
use omnistash.World.{Proc, pure, lift, gets, attempt, trip, quietly, ◌>>=◌, ◌>>◌}

-- `InitiateBlobUpload`
unfoldable pub initiate_blob_upload : Env → String → Proc String
initiate_blob_upload env ns = do
  trip
  id ← new_uuid env
  os_create (build_staging_path ns id)
  trip
  pure id

abbrev pub check : Bool → StoreError → Result (Unit {0})
check true e = ok tt
check false e = fail (store e)

-- Between the open and the deferred close, whose error is only logged.
abbrev pub append_open : ℕ → ℤ → Body → Proc ℕ
append_open i offset body = do
  size ← file_stat i
  lift (check (eq_int size offset) StoreError.range_not_satisfiable)
  copied ← copy_body i body
  lift copied.1
  trip
  pure (size + copied.0)

-- `AppendBlobChunk`. Where it adds, `offset` is the size of the file.
unfoldable pub append_blob_chunk : String → String → ℤ → Body → Proc ℕ
append_blob_chunk ns id offset body = do
  lift (if is_neg offset then fail (store StoreError.blob_upload_invalid) else ok tt)
  opened ← attempt (os_open (build_staging_path ns id))
  i ← lift (map_missing (store StoreError.blob_upload_unknown) opened)
  r ← attempt (append_open i offset body)
  quietly trip
  lift r

-- `GetBlobUploadOffset`
unfoldable pub get_blob_upload_offset : String → String → Proc ℕ
get_blob_upload_offset ns id = do
  r ← attempt (os_stat (build_staging_path ns id))
  lift (map_missing (store StoreError.blob_upload_unknown) r)

-- `verifyStagingBlob`
unfoldable pub verify_staging_blob : Env → FilePath → Digest → ℤ → Proc (Unit {0})
verify_staging_blob env path d size = do
  stat ← attempt (os_stat path)
  n ← lift (map_missing (store StoreError.blob_upload_unknown) stat)
  lift (check (eq_int n size) StoreError.size_invalid)
  algorithm ← lift (hasher_for env d)
  i ← os_open path
  hashed ← attempt (do trip; gets (λ w. read i w.files))
  quietly trip
  bytes ← lift hashed
  lift (match_digest d (env.new_digest algorithm bytes))

abbrev pub remove_committed : FilePath → Result (Unit {0}) → Proc (Unit {0})
remove_committed path (ok done) = quietly (remove_file_if_exists path)
remove_committed path (err e) =
    if is e (store StoreError.blob_committed)
    then (do quietly (remove_file_if_exists path); lift (err e))
    else lift (err e)

-- `commitStagingBlob`
unfoldable pub commit_staging_blob : Env → String → FilePath → Digest → Proc (Unit {0})
commit_staging_blob env ns path d = do
  r ← attempt (link_staged_file env ns path d)
  remove_committed path r

-- `FinalizeBlobUpload`
unfoldable pub finalize_blob_upload : Env → String → String → Digest → ℤ → Proc (Unit {0})
finalize_blob_upload env ns id d size = do
  lift (validate_digest env d)
  let path = build_staging_path ns id
  verify_staging_blob env path d size
  commit_staging_blob env ns path d

-- `CancelBlobUpload`
unfoldable pub cancel_blob_upload : String → String → Proc (Unit {0})
cancel_blob_upload ns id = remove_file_if_exists (build_staging_path ns id)
