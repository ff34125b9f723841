-- ===== src/Blob/Cleanup.antt =====
-- What happens to the bytes of a blob when its registration fails: `MonolithicUpload` and
-- `mountBlobCopy` of internal/blob/upload.go, for a blob that the store held before.
use omnistash.Base.{ℕ, ◌≡◌, false, none, some, String, [], ◌∷◌, ==_refl, string_eq, pair_eq}
use omnistash.Base.Int.{ℤ, pos}
use omnistash.Errors.{Error, ok, err, store, StoreError}
use omnistash.Metastore.Tables.{Digest}
use omnistash.Env.{Env, valid}
use omnistash.Blobstore.Files.{Bytes, content}
use omnistash.Blobstore.Os.{Body, build_blob_path}
use omnistash.Blobstore.Writer
use omnistash.Blobstore.Writer.{put_blob}
use omnistash.Blobstore.Deletes.{content-delete_blob}
use omnistash.Blob.Service.{validate_namespace_digest, monolithic_upload, mount_blob_copy, register}
use omnistash.World.{World, calm, ◌>>=◌}

-- The steps of a call whose blob is there already, and whose registration fails.
module _ (env : Env) (ns : String) (d : Digest) (w1 w2 w3 w4 : World) (n jobs : ℕ) (e : Error)
    (stated : Writer.stat_blob env ns d w2 ≡ (ok n, w3))
    (failed : register ns d n w3 ≡ (err e, calm w4)) where
  -- If the arguments pass, PutBlob finds the blob committed already, its size is read, the
  -- registration fails, and from then on the operating system answers with the vacuum running, then
  -- MonolithicUpload leaves no blob at its path, though the store held it before the call.
  pub monolithic_upload_cleanup :
      (size : ℤ) (body : Body) (w : World)
      → validate_namespace_digest env ns d w ≡ (ok tt, w1)
      → put_blob env ns d size body w1 ≡ (err (store StoreError.blob_committed ∷ []), w2)
      → env.validate d ≡ valid
      → w4.jobs ≡ some jobs
      → content (build_blob_path env ns d) (monolithic_upload env ns d size body w).1.files ≡ none
  unfolding monolithic_upload ◌>>=◌
  monolithic_upload_cleanup size body w valid_args there v j = rw (
    valid_args,
    there,
    stated,
    failed,
    content-delete_blob env ns d w4 jobs j v (build_blob_path env ns d),
    ==_refl (build_blob_path env ns d),
  )

  -- If PutBlob finds the blob committed already, its size is read and the registration fails,
  -- mountBlobCopy fails with the error of the registration and takes no further step.
  pub mount_blob_copy_keeps :
      (bytes : Bytes) (size : ℕ)
      → put_blob env ns d (pos size) (record { bytes = bytes; broken = false }) w1
        ≡ (err (store StoreError.blob_committed ∷ []), w2)
      → mount_blob_copy env ns d bytes size w1 ≡ (err e, calm w4)
  unfolding mount_blob_copy ◌>>=◌
  mount_blob_copy_keeps bytes size there = rw (there, stated, failed)
