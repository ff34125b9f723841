-- ===== src/Blob/Session.antt =====
-- Upload sessions of internal/blob/upload.go.
use omnistash.Base.{ℕ, String, ◌||◌, ◌∷◌, [], if◌then◌else◌, Option, none, some}
use omnistash.Base.Int.{ℤ, pos}
use omnistash.Errors.{Error, Result, ok, err, is, oci, store, OciError, StoreError}
use omnistash.Metastore.Tables.{Digest}
use omnistash.Env.{Env}
use omnistash.Blobstore.Os.{Body}
use omnistash.Blobstore.Upload
use omnistash.Blob.Service.{validate_namespace, validate_namespace_digest, map_is, register}
use omnistash.Blob.Service.{delete_unregistered, join_cleanup}
use omnistash.World.{Proc, pure, raise, throw, lift, attempt, ◌>>=◌, ◌>>◌}

-- `InitiateUpload`
unfoldable pub initiate_upload : Env → String → Proc String
initiate_upload env name = do validate_namespace name; Upload.initiate_blob_upload env name

abbrev pub map_unknown : {A : Type 0} → Result A → Result A
map_unknown = map_is (store StoreError.blob_upload_unknown) (oci OciError.blob_upload_unknown)

-- `AppendChunk`
unfoldable pub append_chunk : String → String → ℤ → Body → Proc ℕ
append_chunk name id offset body = do
  validate_namespace name
  r ← attempt (Upload.append_blob_chunk name id offset body)
  lift (
      map_is (store StoreError.range_not_satisfiable) (oci OciError.range_not_satisfiable)
        (map_unknown r))

abbrev pub append_final : String → String → ℕ → Option Body → Proc ℕ
append_final name id offset none = pure offset
append_final name id offset (some body) = do
  r ← attempt (Upload.append_blob_chunk name id (pos offset) body)
  lift (map_unknown r)

-- `appendFinalChunk`
unfoldable pub append_final_chunk : String → String → Option Body → Proc ℕ
append_final_chunk name id final = do
  r ← attempt (Upload.get_blob_upload_offset name id)
  offset ← lift (map_unknown r)
  append_final name id offset final

-- `handleFinalizeError`
unfoldable pub handle_finalize_error : String → String → Error → Proc (Unit {0})
handle_finalize_error name id e =
    if is e (store StoreError.blob_upload_unknown)
    then throw (oci OciError.blob_upload_unknown)
    else if is e (store StoreError.size_invalid)
    then throw (oci OciError.size_invalid)
    else if is e (store StoreError.digest_mismatch) || is e (store StoreError.invalid_digest)
    then (do
      c ← attempt (Upload.cancel_blob_upload name id)
      lift (join_cleanup (oci OciError.digest_invalid ∷ []) c))
    else raise e

abbrev pub if_finalized : String → String → Result (Unit {0}) → Proc (Unit {0})
if_finalized name id (ok done) = pure tt
if_finalized name id (err e) = handle_finalize_error name id e

-- `CommitUpload`
unfoldable pub commit_upload : Env → String → String → Digest → Option Body → Proc (Unit {0})
commit_upload env name id d final = do
  validate_namespace_digest env name d
  total ← append_final_chunk name id final
  finalized ← attempt (Upload.finalize_blob_upload env name id d (pos total))
  if_finalized name id finalized
  r ← attempt (register name d total)
  delete_unregistered env name d r

-- `GetUploadStatus`
unfoldable pub get_upload_status : String → String → Proc ℕ
get_upload_status name id = do
  validate_namespace name
  r ← attempt (Upload.get_blob_upload_offset name id)
  lift (map_unknown r)

-- `CancelUpload`
unfoldable pub cancel_upload : String → String → Proc (Unit {0})
cancel_upload name id = do
  validate_namespace name
  r ← attempt (Upload.get_blob_upload_offset name id)
  lift (map_unknown r)
  Upload.cancel_blob_upload name id
