-- ===== src/Blob/Committed.antt =====
-- `CommitUpload` of internal/blob/upload.go, while the database engine and the operating system
-- answer.
use omnistash.Base.{ℕ, ◌≡◌, ◌≢◌, refl, sym, ap, ◌∙◌, none, some, String, arith}
use omnistash.Base.{==_refl, string_eq, pair_eq, length, ◌∷◌, []}
use omnistash.Base.Int.{pos}
use omnistash.Base.Table.{lookup}
use omnistash.Errors.{ok, fail, store, StoreError}
use omnistash.Metastore.Tables.{Digest, Key, Db}
use omnistash.Metastore.Sql
use omnistash.Metastore.Blobs.{registered, registered_size, size-registered}
use omnistash.Env.{Env, IsLawful, valid}
use omnistash.Name.{validate_name}
use omnistash.Blobstore.Files.{Bytes, Files, inode, content, read, link, unlink}
use omnistash.Blobstore.Os.{build_blob_path, build_staging_path, os_stat}
use omnistash.Blobstore.Put.{blob_ne_staging}
use omnistash.Blobstore.Upload.{get_blob_upload_offset}
use omnistash.Blobstore.Commits.{finalize_lem, verify_outcome, content-moved}
use omnistash.Blob.Service
use omnistash.Blob.Session.{commit_upload, append_final_chunk, handle_finalize_error}
use omnistash.Blob.Registered.{
  validate_calm, register-calm, get_of_registered, namespace-registered,
}
use omnistash.Rest.Status.{err_to_status_code, switch}
use omnistash.World.{World, calm, ◌>>=◌}

module _ (env : Env) (L : IsLawful env) (name id : String) (d : Digest) (i : ℕ) (w : World)
    (n : validate_name name ≡ ok tt) (v : env.validate d ≡ valid)
    (e : lookup name w.db.namespace ≢ none)
    (staged : inode (build_staging_path name id) w.files ≡ some i)
    (same : d ≡ env.new_digest (env.algorithm d) (read i w.files)) where
  abbrev bytes : Bytes
  bytes = read i w.files

  offset_calm : append_final_chunk name id none (calm w) ≡ (ok (length bytes), calm w)
  unfolding append_final_chunk get_blob_upload_offset os_stat ◌>>=◌
  offset_calm = rw staged refl

  verified : verify_outcome env d (pos (length bytes)) (some bytes) ≡ ok tt
  verified = ground (arith, same)

  -- Without a final chunk, `CommitUpload` of a blob that the store holds already, from an upload with
  -- the bytes of the digest in a namespace that exists, fails with `ErrBlobCommitted`, which the API
  -- reports as 500. Nothing is registered, and the upload is gone.
  pub commit_upload_conflict :
      (j : ℕ)
      → inode (build_blob_path env name d) w.files ≡ some j
      → (commit_upload env name id d none (calm w) ≡ (
        fail (store StoreError.blob_committed),
        record (calm w) { files = unlink (build_staging_path name id) w.files },
      ))
        × (err_to_status_code (store StoreError.blob_committed ∷ []) ≡ (500, "INTERNAL_ERROR"))
  unfolding commit_upload handle_finalize_error err_to_status_code switch ◌>>=◌
  commit_upload_conflict j there = (
    rw (
      validate_calm env name d w n v e,
      offset_calm,
      finalize_lem env L name id d (pos (length bytes)) w v (some i) staged (some j) there (ok tt)
          verified,
    ),
    refl,
  )

  abbrev new_db : Db
  new_db = registered w.now (name, d) (length bytes) w.db (lookup (name, d) w.db.namespace_blobs)

  abbrev moved : Files
  moved = unlink (build_staging_path name id) (link i (build_blob_path env name d) w.files)

  abbrev committed : World
  committed = record w { files = moved; db = new_db }

  commit_calm :
      inode (build_blob_path env name d) w.files ≡ none
      → commit_upload env name id d none (calm w) ≡ (ok tt, calm committed)
  unfolding commit_upload ◌>>=◌
  commit_calm new = rw (
    validate_calm env name d w n v e,
    offset_calm,
    finalize_lem env L name id d (pos (length bytes)) w v (some i) staged none new (ok tt) verified,
    register-calm env name d (record w { files = moved }) (length bytes) e,
  )

  name_stays : lookup name new_db.namespace ≢ none
  name_stays h =
      e (ap (lookup name) (sym (namespace-registered w.now (name, d) (length bytes) w.db _)) ∙ h)

  size_there :
      Sql.get_namespace_blob_size (name, d) new_db
      ≡ some (registered_size (lookup (name, d) w.db.namespace_blobs) (length bytes))
  size_there =
      rw
        (
          size-registered w.now (name, d) (length bytes) w.db _ (name, d),
          ==_refl {A = Key} (name, d),
        )
        refl

  bytes_there : content (build_blob_path env name d) moved ≡ some bytes
  bytes_there =
      rw
        (
          content-moved (build_staging_path name id) (build_blob_path env name d) i w.files
              (build_blob_path env name d) _ refl,
          blob_ne_staging env L name d id v,
          ==_refl (build_blob_path env name d),
        )
        refl

  -- `CommitUpload` without a final chunk, of a new blob in a namespace that exists, from an upload
  -- with the bytes of the digest, succeeds; `GetBlob` of the service then gives the bytes that were
  -- uploaded, and beside them the registered size, which is their number unless the digest was
  -- registered before.
  pub get_blob-commit_upload :
      inode (build_blob_path env name d) w.files ≡ none
      → ((commit_upload env name id d none (calm w)).0 ≡ ok tt)
        × ((Service.get_blob env name d (commit_upload env name id d none (calm w)).1).0
            ≡ ok (bytes, registered_size (lookup (name, d) w.db.namespace_blobs) (length bytes)))
  get_blob-commit_upload new =
      rw (commit_calm new)
        (refl, get_of_registered env name d committed bytes _ n v name_stays size_there bytes_there)
